-- ===== src/Learning/Store/Vain.antt =====
-- `evictFor` of internal/dictionary/insert.go on an entry that can never fit.

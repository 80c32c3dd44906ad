-- ===== src/State/Encode/Learner/Silent.antt =====
-- The learner has no effect on what the encoder sends.
use enzo.Prelude.{Option}
use enzo.Outcome.{Error}
use enzo.State.Encode.{Loop}
use enzo.State.Encode.Learner.{LearningLoop}

-- Without the learner.
abbrev pub forget : Option Error × LearningLoop → Option Error × Loop
forget t = (t.0, t.1.loop)

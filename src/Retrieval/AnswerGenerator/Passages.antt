-- ===== src/Retrieval/AnswerGenerator/Passages.antt =====
-- The numbers of the passages in the prompt of `AnswerGenerator.generate`, and the citations.
use know_gate.Prelude.Dict.{Dict}

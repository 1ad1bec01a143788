-- ===== src/Prelude/Outcomes.antt =====
-- How a Go call ends: with a result, with an error, or with a runtime panic. `stuck` stands for a
-- loop whose fuel ran out.

pub data Outcome (E : Type 0) (A : Type 0) : Type 0 where
  ret : A → Outcome E A
  fail : E → Outcome E A
  panic : Outcome E A
  stuck : Outcome E A

abbrev pub and_then : {E A B : Type 0} → Outcome E A → (A → Outcome E B) → Outcome E B
and_then (ret a) f = f a
and_then (fail e) f = fail e
and_then panic f = panic
and_then stuck f = stuck

-- An error with its context.
abbrev pub map_error : {E F A : Type 0} → (E → F) → Outcome E A → Outcome F A
map_error f (ret a) = ret a
map_error f (fail e) = fail (f e)
map_error f panic = panic
map_error f stuck = stuck

-- ===== src/Prelude/Decimal.antt =====
-- Numbers printed in decimal, as `%d` prints them.
use Prim.Native.Nat.{ℕ, zero, suc, ◌+◌, ◌/◌, ◌%◌, ◌<◌}
use mathlib.Core.List.{List, ◌∷◌}
use native.Mathlib.Omega.{arith}
use malcom.Prelude.Tests.{ltb, if◌then◌else◌, if_split, ltb→lt}
use malcom.Prelude.Lists.{get_or}

-- Digits, the most significant first, before what is printed already. The fuel is a bound on their
-- number: ten for a uint32, twenty for a uint64.
unfoldable pub decimal : ℕ → ℕ → List ℕ → List ℕ
decimal zero n acc = acc
decimal (suc f) n acc =
    let rest = decimal f (n / 10) ((b'0' + n % 10) ∷ acc) in
    if ltb n 10 then (b'0' + n) ∷ acc else rest

-- No letter stands first.
pub first-decimal :
    (f n : ℕ) (acc : List ℕ) → get_or acc 0 0 < 58 → get_or (decimal f n acc) 0 0 < 58
unfolding decimal
first-decimal zero n acc h = h
first-decimal (suc f) n acc h =
    if_split (λ (bs : List ℕ). get_or bs 0 0 < 58) (ltb n 10) (λ t. omega (arith, ltb→lt n 10 t))
      (λ _. first-decimal f (n / 10) ((b'0' + n % 10) ∷ acc) (omega arith))

-- ===== src/Fetch/Download/Coverage.antt =====
-- No chunk is ever lost: each one is pending, in flight or complete, and `doneCount` counts the
-- complete ones.
use malcom.Prelude.{
  ℕ, ◌+◌, ◌%◌, ◌^◌, ◌<◌, ◌≡◌, ◌⊎◌, inl, inr, Bool, true, false, List, arith, length, get_or, set,
  count, length-set, get_or-set_self, get_or-set_ne, count-set-true, count-le-length, Bool-cases,
  Option-cases,
}
use malcom.Prelude.Map
use malcom.Prelude.Map.{Map, nat_key, string_key}
use native.Mathlib.Decide.{ℕ_discrete}
use text.Mathlib.Text.{◌==◌ as str_eq}
use malcom.Fetch.Download.{PeerId, Job, Scheduler, InflightEntry}
use malcom.Fetch.Download.Handlers.{is_none, answered}

-- Where chunk i is.
abbrev pub IsCovered : List Bool → List Bool → Map ℕ InflightEntry → ℕ → Type 0
IsCovered pending completed inflight i =
    (get_or pending i false ≡ true)
    ⊎ (is_none (Map.get i inflight) ≡ false)
    ⊎ (get_or completed i false ≡ true)

pub record Tracks (n : ℕ) (pending completed : List Bool) (inflight : Map ℕ InflightEntry)
    (done : ℕ) : Type 0 where
  pub pending_length : length pending ≡ n
  pub completed_length : length completed ≡ n
  pub counted : done ≡ count completed
  pub covered : (i : ℕ) → i < n → IsCovered pending completed inflight i

abbrev pub IsTracking : Job → Scheduler → Type 0
IsTracking job s = Tracks job.chunks s.pending s.completed s.inflight s.done_count

module _ {n done : ℕ} {pending completed : List Bool} {inflight : Map ℕ InflightEntry}
    (t : Tracks n pending completed inflight done) where
  -- Chunk i goes from pending to in flight.
  pub Tracks-assign :
      (i : ℕ) (e : InflightEntry)
      → Tracks n (set pending i false) completed (Map.put i e inflight) done
  Tracks-assign i e = record {
    pending_length = omega (arith, t.pending_length, length-set pending i false);
    completed_length = t.completed_length;
    counted = t.counted;
    covered = λ j lt. elim (ℕ_discrete i j) [
      | yes same ↦ inr (inl (rw (same, Map.get-put_self j e inflight)))
      | no other ↦
          rw (Map.get-put_ne j i e inflight other, get_or-set_ne pending i j false false other)
            (t.covered j lt)
    ];
  }

  -- Chunk i becomes pending, whatever happens to its entry.
  pub Tracks-pend : (i : ℕ) → Tracks n (set pending i true) completed inflight done
  Tracks-pend i = record {
    pending_length = omega (arith, t.pending_length, length-set pending i true);
    completed_length = t.completed_length;
    counted = t.counted;
    covered = λ j lt. elim (ℕ_discrete i j) [
      | yes same ↦
          inl (rw same (get_or-set_self pending j true false (omega (arith, t.pending_length))))
      | no other ↦ rw (get_or-set_ne pending i j true false other) (t.covered j lt)
    ];
  }

  pub Tracks-requeue :
      (i : ℕ) → Tracks n (set pending i true) completed (Map.delete i inflight) done
  Tracks-requeue i = record {
    pending_length = omega (arith, t.pending_length, length-set pending i true);
    completed_length = t.completed_length;
    counted = t.counted;
    covered = λ j lt. elim (ℕ_discrete i j) [
      | yes same ↦
          inl (rw same (get_or-set_self pending j true false (omega (arith, t.pending_length))))
      | no other ↦
          rw (get_or-set_ne pending i j true false other, Map.get-delete_ne j i inflight other)
            (t.covered j lt)
    ];
  }

  -- The entry of a complete chunk may go.
  pub Tracks-drop_entry :
      (i : ℕ)
      → get_or completed i false ≡ true
      → Tracks n pending completed (Map.delete i inflight) done
  Tracks-drop_entry i full = record {
    pending_length = t.pending_length;
    completed_length = t.completed_length;
    counted = t.counted;
    covered = λ j lt. elim (ℕ_discrete i j) [
      | yes same ↦ inr (inr (rw (← same) full))
      | no other ↦ rw (Map.get-delete_ne j i inflight other) (t.covered j lt)
    ];
  }

  pub Tracks-complete :
      (i : ℕ)
      → i < n
      → n < 2 ^ 32
      → get_or completed i false ≡ false
      → Tracks n pending (set completed i true) inflight ((done + 1) % 2 ^ 32)
  Tracks-complete i lt small open_ = record {
    pending_length = t.pending_length;
    completed_length = omega (arith, t.completed_length, length-set completed i true);
    counted = omega (
      arith,
      t.counted,
      t.completed_length,
      count-set-true completed i (omega (arith, t.completed_length)) open_,
      count-le-length (set completed i true),
      length-set completed i true,
    );
    covered = λ j lt'. elim (ℕ_discrete i j) [
      | yes same ↦ inr (
          inr
            (rw same (get_or-set_self completed j true false (omega (arith, t.completed_length)))))
      | no other ↦ rw (get_or-set_ne completed i j true false other) (t.covered j lt')
    ];
  }

-- A complete chunk stays so, and need not be pending.
pub Tracks-unpend :
    {n done : ℕ} {pending completed : List Bool} {inflight : Map ℕ InflightEntry} (i : ℕ)
    → Tracks n pending completed inflight done
    → get_or completed i false ≡ true
    → Tracks n (set pending i false) completed inflight done
Tracks-unpend {pending = p} i t full = record {
  pending_length = omega (arith, t.pending_length, length-set p i false);
  completed_length = t.completed_length;
  counted = t.counted;
  covered = λ j lt. elim (ℕ_discrete i j) [
    | yes same ↦ inr (inr (rw (← same) full))
    | no other ↦ rw (get_or-set_ne p i j false false other) (t.covered j lt)
  ];
}

-- `answered` leaves the entries alone or drops that of chunk i.
pub answered_cases {ℓ} :
    (P : Map ℕ InflightEntry → Type ℓ) (pid : PeerId) (i : ℕ) (inflight : Map ℕ InflightEntry)
    → P inflight
    → P (Map.delete i inflight)
    → P (answered pid i inflight)
unfolding answered
answered_cases P pid i inflight kept dropped = elim (Option-cases (Map.get i inflight)) [
  | inl e ↦ rw (e, answered) kept
  | inr (info, e) ↦
      rw (e, answered)
        (elim (Bool-cases (str_eq info.peer pid)) [
          | inl mine ↦ rw mine dropped
          | inr other ↦ rw other kept
        ])
]

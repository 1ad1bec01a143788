-- ===== src/Diff/Extensions/Hashes.antt =====
-- Payloads collected by their hashes, and the lists of removes and adds that come of it.
use mathlib.Core.Bool.{false≢true}
use mathlib.Core.Option.{none-ne-some}
use malcom.Prelude.{
  ◌≡◌, ◌≢◌, ◌⊎◌, inl, inr, refl, sym, ap, subst, ◌∙◌, Bool, true, false, List, [], ◌∷◌, ◌++◌,
  Option, none, some, Bytes, Bool-cases,
}
use malcom.Prelude.Map.{
  Map, bytes_key, bytes_equal, bytes_equal→eq, bytes_equal_refl, get, put, get-put_self, get-put_ne,
}
use malcom.Diff.Extensions.{keys, by_hash, unless_there, find_payload, removes_of, adds_of}

abbrev pub In : Bytes → List Bytes → Type 0
In x [] = ⊥
In x (y ∷ ys) = (x ≡ y) ⊎ In x ys

pub In-append : (x : Bytes) (xs ys : List Bytes) → In x (xs ++ ys) → In x xs ⊎ In x ys
In-append x [] ys h = inr h
In-append x (z ∷ xs) ys (inl e) = inl (inl e)
In-append x (z ∷ xs) ys (inr h) = elim (In-append x xs ys h) [ inl a ↦ inl (inr a) | inr b ↦ inr b ]

pub In-append_left : (x : Bytes) (xs ys : List Bytes) → In x xs → In x (xs ++ ys)
In-append_left x [] ys h = elim h [ ]
In-append_left x (z ∷ xs) ys (inl e) = inl e
In-append_left x (z ∷ xs) ys (inr h) = inr (In-append_left x xs ys h)

pub In-append_right : (x : Bytes) (xs ys : List Bytes) → In x ys → In x (xs ++ ys)
In-append_right x [] ys h = h
In-append_right x (z ∷ xs) ys h = inr (In-append_right x xs ys h)

apart_eq : (j k : Bytes) → bytes_equal j k ≡ false → j ≢ k
apart_eq j k apart e =
    false≢true (sym apart ∙ subst (λ (i : Bytes). bytes_equal j i ≡ true) e (bytes_equal_refl j))

pub some_inj : {V : Type 0} {a b : V} → some a ≡ some b → a ≡ b
some_inj e = cc

pub nothing_there : {V : Type 0} (h : Bytes) (v : V) → get h [] ≡ some v → ⊥
unfolding get
nothing_there h v e = none-ne-some v e

same_or_not : (j k : Bytes) → (j ≡ k) ⊎ (j ≢ k)
same_or_not j k = elim (Bool-cases (bytes_equal j k)) [
  | inl same ↦ inl (bytes_equal→eq j k same)
  | inr apart ↦ inr (apart_eq j k apart)
]

-- A key of a map has a value, and a key that has one is a key.
module _ {V : Type 0} where
  pub get-keys : (k : Bytes) (m : Map Bytes V) (v : V) → get k m ≡ some v → In k (keys m)
  unfolding get
  get-keys k [] v e = cc
  get-keys k ((j, w) ∷ m) v e = elim (Bool-cases (bytes_equal j k)) [
    | inl same ↦ inl (sym (bytes_equal→eq j k same))
    | inr apart ↦ inr (get-keys k m v (rw apart at e))
  ]

  -- What `put` makes of a value that is there, and where a value after it comes from.
  get-put-some :
      (k j : Bytes) (v w : V) (m : Map Bytes V)
      → get k m ≡ some v
      → (u : V) × (get k (put j w m) ≡ some u)
  get-put-some k j v w m e = elim (same_or_not j k) [
    | inl p ↦ (w, subst (λ (i : Bytes). get i (put j w m) ≡ some w) p (get-put_self j w m))
    | inr ne ↦ (v, get-put_ne k j w m ne ∙ e)
  ]

  get-put-origin :
      (k j : Bytes) (v w : V) (m : Map Bytes V)
      → get k (put j w m) ≡ some v
      → ((j ≡ k) × (w ≡ v)) ⊎ (get k m ≡ some v)
  get-put-origin k j v w m e = elim (same_or_not j k) [
    | inl p ↦ inl (
      p,
      some_inj (sym (subst (λ (i : Bytes). get i (put j w m) ≡ some w) p (get-put_self j w m)) ∙ e),
    )
    | inr ne ↦ inr (sym (get-put_ne k j w m ne) ∙ e)
  ]

module _ (sha256 : Bytes → Bytes) where
  module _ {V : Type 0} (f : Bytes → V) where
    by_hash-some :
        (ps : List Bytes) (m : Map Bytes V) (h : Bytes) (v : V)
        → get h m ≡ some v
        → (u : V) × (get h (by_hash sha256 f ps m) ≡ some u)
    unfolding by_hash
    by_hash-some [] m h v e = (v, e)
    by_hash-some (p ∷ ps) m h v e =
        let (u, q) = get-put-some h (sha256 p) v (f p) m e in
        by_hash-some ps (put (sha256 p) (f p) m) h u q

    -- Each payload's hash is there.
    pub by_hash-In :
        (ps : List Bytes) (m : Map Bytes V) (p : Bytes)
        → In p ps
        → (u : V) × (get (sha256 p) (by_hash sha256 f ps m) ≡ some u)
    unfolding by_hash
    by_hash-In [] m p i = elim i [ ]
    by_hash-In (q ∷ ps) m p (inl e) = by_hash-some ps (put (sha256 q) (f q) m) (sha256 p) (f q) (
        subst (λ (x : Bytes). get (sha256 x) (put (sha256 q) (f q) m) ≡ some (f q)) (sym e)
          (get-put_self (sha256 q) (f q) m))
    by_hash-In (q ∷ ps) m p (inr i) = by_hash-In ps (put (sha256 q) (f q) m) p i

    -- A value comes from a payload of that hash, or was there before.
    pub by_hash-origin :
        (ps : List Bytes) (m : Map Bytes V) (h : Bytes) (v : V)
        → get h (by_hash sha256 f ps m) ≡ some v
        → ((p : Bytes) × In p ps × (sha256 p ≡ h) × (f p ≡ v)) ⊎ (get h m ≡ some v)
    unfolding by_hash
    by_hash-origin [] m h v e = inr e
    by_hash-origin (p ∷ ps) m h v e = elim (by_hash-origin ps (put (sha256 p) (f p) m) h v e) [
      | inl (q, i, a, b) ↦ inl (q, inr i, a, b)
      | inr there ↦ elim (get-put-origin h (sha256 p) v (f p) m there) [
        | inl (a, b) ↦ inl (p, inl refl, a, b)
        | inr before ↦ inr before
      ]
    ]

  find_payload-sha :
      (h : Bytes) (ps : List Bytes) (p : Bytes) → find_payload sha256 h ps ≡ some p → sha256 p ≡ h
  unfolding find_payload
  find_payload-sha h [] p e = cc
  find_payload-sha h (q ∷ ps) p e = elim (Bool-cases (bytes_equal (sha256 q) h)) [
    | inl same ↦
        let found : q ≡ p = some_inj (rw same at e) in
        subst (λ (x : Bytes). sha256 x ≡ h) found (bytes_equal→eq (sha256 q) h same)
    | inr apart ↦ find_payload-sha h ps p (rw apart at e)
  ]

  find_payload-In :
      (h : Bytes) (ps : List Bytes) (q : Bytes)
      → In q ps
      → sha256 q ≡ h
      → (p : Bytes) × (find_payload sha256 h ps ≡ some p)
  unfolding find_payload
  find_payload-In h [] q i e = elim i [ ]
  find_payload-In h (r ∷ ps) q i e = elim (Bool-cases (bytes_equal (sha256 r) h)) [
    | inl same ↦ (r, rw same refl)
    | inr apart ↦ elim i [
      | inl first ↦ absurd (apart_eq (sha256 r) h apart (ap sha256 (sym first) ∙ e))
      | inr later ↦ let (p, found) = find_payload-In h ps q later e in (p, rw apart found)
    ]
  ]

  -- What stands in the lists of removes and of adds.
  pub unless_there-In :
      {V : Type 0} (p : Bytes) (o : Option V) (found : Option Bytes) (rest : List Bytes)
      → In p (unless_there o found rest)
      → ((o ≡ none) × (found ≡ some p)) ⊎ In p rest
  unless_there-In p (some v) found rest i = inr i
  unless_there-In p none none rest i = inr i
  unless_there-In p none (some q) rest (inl e) = inl (refl, ap some (sym e))
  unless_there-In p none (some q) rest (inr i) = inr i

  pub unless_there-later :
      {V : Type 0} (p : Bytes) (o : Option V) (found : Option Bytes) (rest : List Bytes)
      → In p rest
      → In p (unless_there o found rest)
  unless_there-later p (some v) found rest i = i
  unless_there-later p none none rest i = i
  unless_there-later p none (some q) rest i = inr i

  pub unless_there-first :
      {V : Type 0} (p : Bytes) (o : Option V) (found : Option Bytes) (rest : List Bytes)
      → o ≡ none
      → found ≡ some p
      → In p (unless_there o found rest)
  unless_there-first p (some v) found rest e f = cc
  unless_there-first p none none rest e f = cc
  unless_there-first p none (some q) rest e f = inl (sym (some_inj f))

  module _ (base : List Bytes) (targets : Map Bytes Bytes) where
    pub removes_of-absent :
        (hs : List Bytes) (p : Bytes)
        → In p (removes_of sha256 base targets hs)
        → get (sha256 p) targets ≡ none
    unfolding removes_of
    removes_of-absent [] p i = elim i [ ]
    removes_of-absent (h ∷ hs) p i =
        elim (unless_there-In p (get h targets) (find_payload sha256 h base)
          (removes_of sha256 base targets hs) i) [
            | inl (e, f) ↦
                subst (λ (x : Bytes). get x targets ≡ none) (sym (find_payload-sha h base p f)) e
            | inr later ↦ removes_of-absent hs p later
          ]

    pub removes_of-has :
        (hs : List Bytes) (h : Bytes) (q : Bytes)
        → In h hs
        → get h targets ≡ none
        → In q base
        → sha256 q ≡ h
        → (p : Bytes) × In p (removes_of sha256 base targets hs) × (sha256 p ≡ h)
    unfolding removes_of
    removes_of-has [] h q i e b s = elim i [ ]
    removes_of-has (j ∷ hs) h q (inl same) e b s =
        let (p, f) = find_payload-In j base q b (s ∙ same) in
        (
          p,
          unless_there-first p (get j targets) (find_payload sha256 j base)
              (removes_of sha256 base targets hs)
              (subst (λ (x : Bytes). get x targets ≡ none) same e) f,
          find_payload-sha j base p f ∙ sym same,
        )
    removes_of-has (j ∷ hs) h q (inr i) e b s =
        let (p, there, t) = removes_of-has hs h q i e b s in
        (
          p,
          unless_there-later p (get j targets) (find_payload sha256 j base)
              (removes_of sha256 base targets hs) there,
          t,
        )

  module _ (bases : Map Bytes Bool) (targets : Map Bytes Bytes) where
    pub adds_of-target :
        (hs : List Bytes) (p : Bytes)
        → In p (adds_of sha256 bases targets hs)
        → (h : Bytes) × (get h targets ≡ some p)
    unfolding adds_of
    adds_of-target [] p i = elim i [ ]
    adds_of-target (h ∷ hs) p i =
        elim (unless_there-In p (get h bases) (get h targets) (adds_of sha256 bases targets hs) i) [
          | inl (e, f) ↦ (h, f)
          | inr later ↦ adds_of-target hs p later
        ]

    pub adds_of-has :
        (hs : List Bytes) (h : Bytes) (p : Bytes)
        → In h hs
        → get h bases ≡ none
        → get h targets ≡ some p
        → In p (adds_of sha256 bases targets hs)
    unfolding adds_of
    adds_of-has [] h p i e f = elim i [ ]
    adds_of-has (j ∷ hs) h p (inl same) e f =
        unless_there-first p (get j bases) (get j targets) (adds_of sha256 bases targets hs)
          (subst (λ (x : Bytes). get x bases ≡ none) same e)
          (subst (λ (x : Bytes). get x targets ≡ some p) same f)
    adds_of-has (j ∷ hs) h p (inr i) e f =
        unless_there-later p (get j bases) (get j targets) (adds_of sha256 bases targets hs)
          (adds_of-has hs h p i e f)

-- ===== src/Data/Map/Range.antt =====
-- `for k, v := range m` and `len(m)`. Go leaves the order of the visits open: it is an argument of
-- every loop, and may be any permutation of the pairs.
use mathlib.Core.List.Permᴰ
use mathlib.Core.List.{Permᴰ}
use wireguard_babeld_igp.Base.{
  ℕ, suc, ◌≡◌, ◌≢◌, sym, refl, ◌∙◌, ap, if_pos, if_neg, ◌⊎◌, inl, inr, List, [], ◌∷◌, none, some,
  arith, Key, ◌=?◌, Bool, true, false, Option, if◌then◌else◌, Bool-cases,
}
use wireguard_babeld_igp.Data.Map.{Map, find, without, distinct, pairs, get, put, find-without}

module _ {A : Type 0} where
  abbrev pub In : A → List A → Type 0
  In x [] = ⊥
  In x (y ∷ l) = (x ≡ y) ⊎ In x l

  abbrev pub length : List A → ℕ
  length [] = 0
  length (x ∷ l) = suc (length l)

  -- An order in which a loop may visit its collection.
  abbrev pub IsOrder : (List A → List A) → Type 0
  IsOrder visit = (l : List A) → Permᴰ (visit l) l

  In-resp : {x y : A} (l : List A) → x ≡ y → In y l → In x l
  In-resp [] e h = h
  In-resp (z ∷ l) e (inl h) = inl (e ∙ h)
  In-resp (z ∷ l) e (inr h) = inr (In-resp l e h)

  pub In-perm : {l r : List A} (x : A) → Permᴰ l r → In x l → In x r
  In-perm x Permᴰ.nil h = h
  In-perm x (Permᴰ.cons e p) (inl h) = inl (h ∙ e)
  In-perm x (Permᴰ.cons e p) (inr h) = inr (In-perm x p h)
  In-perm x (Permᴰ.swap e f) (inl h) = inr (inl (h ∙ e))
  In-perm x (Permᴰ.swap e f) (inr (inl h)) = inl (h ∙ f)
  In-perm x (Permᴰ.swap e f) (inr (inr h)) = inr (inr h)
  In-perm x (Permᴰ.trans p q) h = In-perm x q (In-perm x p h)

  pub length-perm : {l r : List A} → Permᴰ l r → length l ≡ length r
  length-perm Permᴰ.nil = refl
  length-perm (Permᴰ.cons e p) = ap suc (length-perm p)
  length-perm (Permᴰ.swap e f) = refl
  length-perm (Permᴰ.trans p q) = length-perm p ∙ length-perm q

module _ {K V : Type 0} ⦃k : Key K⦄ where
  -- len(m)
  unfoldable pub len : Map K V → ℕ
  unfolding pairs
  len m = length (pairs m)

  -- The pairs in the order in which a loop visits them.
  abbrev pub range : (List (K × V) → List (K × V)) → Map K V → List (K × V)
  range visit m = visit (pairs m)

  In-without : (j : K) (p : K × V) (l : List (K × V)) → In p (without j l) → In p l × (j ≢ p.0)
  unfolding without
  In-without j p [] h = absurd h
  In-without j p ((i, w) ∷ l) h = elim (i =? j) [
    | yes e ↦ let (m, n) = In-without j p l (rw (if_pos (i =? j) e) at h) in (inr m, n)
    | no n ↦ split (In-without j p l) n (rw (if_neg (i =? j) n) at h)
  ]
    where
      split :
          (In p (without j l) → In p l × (j ≢ p.0))
          → i ≢ j
          → In p ((i, w) ∷ without j l)
          → In p ((i, w) ∷ l) × (j ≢ p.0)
      split rec n (inl e) = (inl e, λ f. n (sym (f ∙ ap (λ (q : K × V). q.0) e)))
      split rec n (inr h) = let (m, f) = rec h in (inr m, f)

  without-In :
      (j key : K) (v : V) (l : List (K × V)) → j ≢ key → In (key, v) l → In (key, v) (without j l)
  unfolding without
  without-In j key v [] n h = absurd h
  without-In j key v ((i, w) ∷ l) n (inl e) = ground (arith, ap (λ (p : K × V). p.0) e)
  without-In j key v ((i, w) ∷ l) n (inr h) = ground (arith, without-In j key v l n h)

  In-distinct :
      (key : K) (v : V) (l : List (K × V)) → In (key, v) (distinct l) → find key l ≡ some v
  unfolding find distinct
  In-distinct key v [] h = absurd h
  In-distinct key v ((j, w) ∷ l) (inl e) = ground arith
  In-distinct key v ((j, w) ∷ l) (inr h) =
      let (m, n) = In-without j (key, v) (distinct l) h in
      rw (if_neg (j =? key) n) (In-distinct key v l m)

  distinct-In :
      (key : K) (v : V) (l : List (K × V)) → find key l ≡ some v → In (key, v) (distinct l)
  unfolding find distinct
  distinct-In key v [] h = cc
  distinct-In key v ((j, w) ∷ l) h = elim (j =? key) [
    | yes e ↦ inl (ground arith)
    | no n ↦ inr (without-In j key v (distinct l) n (distinct-In key v l (ground arith)))
  ]

  -- A loop visits exactly the pairs that the map holds.
  pub get-range :
      (visit : List (K × V) → List (K × V)) (m : Map K V) (key : K) (v : V)
      → IsOrder visit
      → In (key, v) (range visit m)
      → get m key ≡ some v
  unfolding get pairs
  get-range visit m key v o h = In-distinct _ _ m.entries (In-perm _ (o _) h)

  pub range-get :
      (visit : List (K × V) → List (K × V)) (m : Map K V) (key : K) (v : V)
      → IsOrder visit
      → get m key ≡ some v
      → In (key, v) (range visit m)
  unfolding get pairs
  range-get visit m key v o h = In-perm _ (Permᴰ.symm (o _)) (distinct-In _ _ m.entries h)

  without_absent : (key : K) (l : List (K × V)) → find key l ≡ none → without key l ≡ l
  unfolding find without
  without_absent key [] h = refl
  without_absent key ((j, w) ∷ l) h = ground (arith, without_absent key l)

  find-distinct : (key : K) (l : List (K × V)) → find key (distinct l) ≡ find key l
  unfolding find distinct
  find-distinct key [] = refl
  find-distinct key ((j, w) ∷ l) =
      ground (arith, find-without j key (distinct l), find-distinct key l)

  -- A new key makes the map longer by one.
  pub len-put_new :
      (m : Map K V) (key : K) (v : V) → get m key ≡ none → len (put m key v) ≡ suc (len m)
  unfolding len get put distinct
  len-put_new m key v h = rw (without_absent key m.entries h) (
      ap suc
        (ap length (without_absent key (distinct m.entries) (find-distinct key m.entries ∙ h))))

module _ {K V : Type 0} where
  -- for _, v := range m { if test(v) { found = v; break } }
  unfoldable pub first : (V → Bool) → List (K × V) → Option V
  first test [] = none
  first test ((key, v) ∷ l) = if test v then some v else first test l

  pub first-In :
      (test : V → Bool) (l : List (K × V)) (v : V)
      → first test l ≡ some v
      → (key : K) × In (key, v) l × (test v ≡ true)
  unfolding first
  first-In test [] v h = cc
  first-In test ((key, w) ∷ l) v h = elim (Bool-cases (test w)) [
    | inl yes' ↦ (key, inl (ground arith), ground arith)
    | inr no' ↦ let (key', m, t) = first-In test l v (rw no' at h) in (key', inr m, t)
  ]

  pub first-none :
      (test : V → Bool) (l : List (K × V)) (key : K) (v : V)
      → first test l ≡ none
      → In (key, v) l
      → test v ≡ false
  unfolding first
  first-none test [] key v h m = absurd m
  first-none test ((i, w) ∷ l) key v h (inl e) = ground (arith, ap (λ (p : K × V). p.1) e)
  first-none test ((i, w) ∷ l) key v h (inr m) =
      ground (arith, λ (q : first test l ≡ none). first-none test l key v q m)

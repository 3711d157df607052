-- ===== src/Cleanup/Stale.antt =====
-- Which transactions wait for the cleanup, and that a round settles the one that it is called for.
use mathlib.Core.Path.{subst}
use banking_payments_api.Prelude.{
  ℕ, ◌≡◌, ◌≢◌, refl, sym, ◌∙◌, Bool, true, false, ◌||◌, not, some, List, [], ◌∷◌, map, arith, inl,
  inr, Bool-cases, ◌==◌,
}
use banking_payments_api.Prelude.Lists.{select, All}
use banking_payments_api.Store.Tables.{HasId, find, update}
use banking_payments_api.Store.Models.{Transaction, transaction_id, is_pending}
use banking_payments_api.Cleanup.{is_stale}

module _ {A : Type 0} ⦃r : HasId A⦄ where
  -- a primary key
  abbrev pub DistinctIds : List A → Type 0
  DistinctIds [] = Unit
  DistinctIds (x ∷ xs) = All (λ y. r.id_of y ≢ r.id_of x) xs × DistinctIds xs

  keeps_apart :
      (n k : ℕ) (g : A → A) (xs : List A)
      → ((x : A) → r.id_of (g x) ≡ r.id_of x)
      → All (λ y. r.id_of y ≢ n) xs
      → All (λ y. r.id_of y ≢ n) (update k g xs)
  keeps_apart n k g [] keeps h = tt
  keeps_apart n k g (x ∷ xs) keeps h = elim (Bool-cases (r.id_of x == k)) [
    | inl same ↦ rw same (λ e. h.0 (sym (keeps x) ∙ e), h.1)
    | inr other ↦ rw other (h.0, keeps_apart n k g xs keeps h.1)
  ]

  pub DistinctIds-update :
      (k : ℕ) (g : A → A) (xs : List A)
      → ((x : A) → r.id_of (g x) ≡ r.id_of x)
      → DistinctIds xs
      → DistinctIds (update k g xs)
  DistinctIds-update k g [] keeps h = tt
  DistinctIds-update k g (x ∷ xs) keeps h = elim (Bool-cases (r.id_of x == k)) [
    | inl same ↦ rw same (rw (keeps x) h)
    | inr other ↦
        rw other (keeps_apart (r.id_of x) k g xs keeps h.0, DistinctIds-update k g xs keeps h.1)
  ]

  -- a row is found under its id
  pub DistinctIds-find :
      (P : A → Type 0) (xs : List A)
      → DistinctIds xs
      → ((x : A) → find (r.id_of x) xs ≡ some x → P x)
      → All P xs
  DistinctIds-find P [] d h = tt
  DistinctIds-find P (x ∷ xs) d h = (
    h x (ground arith),
    later xs d.0 (
        DistinctIds-find (λ y. (r.id_of y ≢ r.id_of x) → P y) xs d.1
          (λ y found apart. h y (ground arith))),
  )
    where
      later :
          (ys : List A)
          → All (λ y. r.id_of y ≢ r.id_of x) ys
          → All (λ y. (r.id_of y ≢ r.id_of x) → P y) ys
          → All P ys
      later [] a b = tt
      later (y ∷ ys) a b = (b.0 a.0, later ys a.1 b.1)

abbrev pub listed : ℕ → List ℕ → Bool
listed n [] = false
listed n (k ∷ ks) = n == k || listed n ks

-- a transaction that the rounds for these ids leave behind in no stale state
abbrev pub covered : ℕ → List ℕ → Transaction → Bool
covered cutoff ks t = not (is_stale cutoff t) || listed t.id ks

abbrev pub AreCovered : ℕ → List ℕ → List Transaction → Type 0
AreCovered cutoff ks = All (λ t. covered cutoff ks t ≡ true)

others_covered :
    (cutoff k : ℕ) (ks : List ℕ) (ts : List Transaction)
    → All (λ (t : Transaction). t.id ≢ k) ts
    → AreCovered cutoff (k ∷ ks) ts
    → AreCovered cutoff ks ts
others_covered cutoff k ks [] apart h = tt
others_covered cutoff k ks (t ∷ ts) apart h =
    (ground arith, others_covered cutoff k ks ts apart.1 h.1)

-- a round that settles its transaction
pub update_covered :
    (cutoff k : ℕ) (ks : List ℕ) (g : Transaction → Transaction) (ts : List Transaction)
    → ((t : Transaction) → is_pending (g t).status ≡ false)
    → DistinctIds ts
    → AreCovered cutoff (k ∷ ks) ts
    → AreCovered cutoff ks (update k g ts)
update_covered cutoff k ks g [] settles d h = tt
update_covered cutoff k ks g (t ∷ ts) settles d h = elim (Bool-cases (t.id == k)) [
  | inl same ↦
      let p : t.id ≡ k = ground arith in
      rw same (ground (arith, settles t), others_covered cutoff k ks ts (rw p at d.0) h.1)
  | inr other ↦ rw other (ground arith, update_covered cutoff k ks g ts settles d.1 h.1)
]

-- a round for no transaction, or for a settled one
pub skip_covered :
    (cutoff k : ℕ) (ks : List ℕ) (ts : List Transaction)
    → DistinctIds ts
    → ((t : Transaction) → find k ts ≡ some t → is_pending t.status ≡ false)
    → AreCovered cutoff (k ∷ ks) ts
    → AreCovered cutoff ks ts
skip_covered cutoff k ks [] d settled h = tt
skip_covered cutoff k ks (t ∷ ts) d settled h = elim (Bool-cases (t.id == k)) [
  | inl same ↦
      let p : t.id ≡ k = ground arith in
      (ground (arith, settled t), others_covered cutoff k ks ts (rw p at d.0) h.1)
  | inr other ↦
      (ground arith, skip_covered cutoff k ks ts d.1 (λ u found. settled u (ground arith)) h.1)
]

covered_more :
    (cutoff k : ℕ) (ks : List ℕ) (ts : List Transaction)
    → AreCovered cutoff ks ts
    → AreCovered cutoff (k ∷ ks) ts
covered_more cutoff k ks [] h = tt
covered_more cutoff k ks (t ∷ ts) h = (ground arith, covered_more cutoff k ks ts h.1)

-- the ids that the job collects
abbrev pub stale_ids : ℕ → List Transaction → List ℕ
stale_ids cutoff ts = map (λ (t : Transaction). t.id) (select (is_stale cutoff) ts)

stale_ids-cons :
    (cutoff : ℕ) (t : Transaction) (ts : List Transaction)
    → is_stale cutoff t ≡ true
    → stale_ids cutoff (t ∷ ts) ≡ t.id ∷ stale_ids cutoff ts
stale_ids-cons cutoff t ts stale = rw stale refl

pub stale_covered :
    (cutoff : ℕ) (ts : List Transaction) → AreCovered cutoff (stale_ids cutoff ts) ts
stale_covered cutoff [] = tt
stale_covered cutoff (t ∷ ts) = elim (Bool-cases (is_stale cutoff t)) [
  | inl stale ↦
      subst (λ ks. AreCovered cutoff ks (t ∷ ts)) (sym (stale_ids-cons cutoff t ts stale))
        (ground arith, covered_more cutoff t.id (stale_ids cutoff ts) ts (stale_covered cutoff ts))
  | inr fresh ↦
      let same : stale_ids cutoff (t ∷ ts) ≡ stale_ids cutoff ts = rw fresh refl in
      subst (λ ks. AreCovered cutoff ks (t ∷ ts)) (sym same) (ground arith, stale_covered cutoff ts)
]

pub covered_none :
    (cutoff : ℕ) (ts : List Transaction)
    → AreCovered cutoff [] ts
    → select (is_stale cutoff) ts ≡ []
covered_none cutoff [] h = refl
covered_none cutoff (t ∷ ts) h = ground (arith, covered_none cutoff ts)

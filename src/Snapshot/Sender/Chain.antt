-- ===== src/Snapshot/Sender/Chain.antt =====
-- The claims of a sender as a chain, and a claim at its end.
use turboraft.Prelude.{
  ℕ, zero, suc, ◌+◌, ◌≤◌, ◌<◌, ◌≡◌, ◌≢◌, ◌∙◌, refl, sym, ap, subst, false, some, List, [], ◌∷◌,
  ◌++◌, length, arith, Bool-cases, inl, inr, length-append,
}
use turboraft.Snapshot.Sender.{Claim, free_slot_from, slot_in_use}

-- Claims that follow each other from one offset to another.
abbrev pub Chain : ℕ → List Claim → ℕ → Type 0
Chain a [] n = a ≡ n
Chain a (c ∷ cs) n = (c.offset ≡ a) × Chain (a + c.length) cs n

-- A claim's slot holds its bytes, which fit into a chunk.
abbrev pub IsClaim : ℕ → ℕ → Claim → Type 0
IsClaim chunk_size slots c =
    (length c.bytes ≡ c.length) × (c.length ≤ chunk_size) × (c.slot < slots)

abbrev pub AllClaims : (Claim → Type 0) → List Claim → Type 0
AllClaims P [] = Unit
AllClaims P (c ∷ cs) = P c × AllClaims P cs

-- No two claims are in one slot.
abbrev pub NoSlot : ℕ → List Claim → Type 0
NoSlot slot [] = Unit
NoSlot slot (c ∷ cs) = (c.slot ≢ slot) × NoSlot slot cs

abbrev pub Apart : List Claim → Type 0
Apart [] = Unit
Apart (c ∷ cs) = NoSlot c.slot cs × Apart cs

-- What is known of the claims.
pub record IsWindow (chunk_size slots a : ℕ) (claims : List Claim) (n : ℕ) : Type 0 where
  pub chain : Chain a claims n
  pub claims_valid : AllClaims (IsClaim chunk_size slots) claims
  pub apart : Apart claims
  pub count_le : length claims ≤ slots

Chain-le : (a : ℕ) (cs : List Claim) (n : ℕ) → Chain a cs n → a ≤ n
Chain-le a [] n h = omega (arith, h)
Chain-le a (c ∷ cs) n (e, h) = omega (arith, Chain-le (a + c.length) cs n h)

pub IsWindow-le : (size slots a : ℕ) (cs : List Claim) (n : ℕ) → IsWindow size slots a cs n → a ≤ n
IsWindow-le size slots a cs n w = Chain-le a cs n w.chain

pub no_claims-IsWindow : (size slots a : ℕ) → IsWindow size slots a [] a
no_claims-IsWindow size slots a = record {
  chain = refl;
  claims_valid = tt;
  apart = tt;
  count_le = omega arith;
}

-- A claim at the end.
Chain-append :
    (a : ℕ) (cs : List Claim) (n : ℕ) (c : Claim)
    → Chain a cs n
    → c.offset ≡ n
    → Chain a (cs ++ c ∷ []) (n + c.length)
Chain-append a [] n c h e = (e ∙ sym h, ap (λ t. t + c.length) h)
Chain-append a (x ∷ xs) n c (q, h) e = (q, Chain-append (a + x.length) xs n c h e)

AllClaims-append :
    (P : Claim → Type 0) (cs : List Claim) (c : Claim)
    → AllClaims P cs
    → P c
    → AllClaims P (cs ++ c ∷ [])
AllClaims-append P [] c h p = (p, tt)
AllClaims-append P (x ∷ xs) c (q, h) p = (q, AllClaims-append P xs c h p)

NoSlot-append :
    (slot : ℕ) (cs : List Claim) (c : Claim)
    → NoSlot slot cs
    → c.slot ≢ slot
    → NoSlot slot (cs ++ c ∷ [])
NoSlot-append slot [] c h p = (p, tt)
NoSlot-append slot (x ∷ xs) c (q, h) p = (q, NoSlot-append slot xs c h p)

Apart-append : (cs : List Claim) (c : Claim) → Apart cs → NoSlot c.slot cs → Apart (cs ++ c ∷ [])
Apart-append [] c h p = (tt, tt)
Apart-append (x ∷ xs) c (q, h) (p, ps) =
    (NoSlot-append x.slot xs c q (λ e. p (sym e)), Apart-append xs c h ps)

pub IsWindow-append :
    (size slots a : ℕ) (cs : List Claim) (n : ℕ) (c : Claim)
    → IsWindow size slots a cs n
    → c.offset ≡ n
    → IsClaim size slots c
    → NoSlot c.slot cs
    → length cs < slots
    → IsWindow size slots a (cs ++ c ∷ []) (n + c.length)
IsWindow-append size slots a cs n c w e p q l = record {
  chain = Chain-append a cs n c w.chain e;
  claims_valid = AllClaims-append (IsClaim size slots) cs c w.claims_valid p;
  apart = Apart-append cs c w.apart q;
  count_le = omega (arith, length-append cs (c ∷ []));
}

slot_in_use-NoSlot : (slot : ℕ) (cs : List Claim) → slot_in_use slot cs ≡ false → NoSlot slot cs
unfolding slot_in_use
slot_in_use-NoSlot slot [] e = tt
slot_in_use-NoSlot slot (c ∷ cs) e =
    (ground (arith, e), slot_in_use-NoSlot slot cs (ground (arith, e)))

-- A slot that is found is free.
pub free_slot_from-NoSlot :
    (n slot : ℕ) (cs : List Claim) (k : ℕ)
    → free_slot_from n slot cs ≡ some k
    → NoSlot k cs × (k < slot + n)
unfolding free_slot_from
free_slot_from-NoSlot zero slot cs k e = absurd (ground (arith, e))
free_slot_from-NoSlot (suc n) slot cs k e = elim (Bool-cases (slot_in_use slot cs)) [
  | inl u ↦
      let (p, l) = free_slot_from-NoSlot n (slot + 1) cs k (ground (arith, e, u)) in
      (p, omega (arith, l))
  | inr f ↦
      let q : slot ≡ k = ground (arith, e, f) in
      (subst (λ t. NoSlot t cs) q (slot_in_use-NoSlot slot cs f), omega (arith, q))
]

-- ===== src/Snapshot/Sender/Window.antt =====
-- The window of a sender: the claims follow each other from the acknowledged offset to the next one.
use turboraft.Prelude.{
  ℕ, ◌+◌, ◌≤◌, ◌<◌, ◌≡◌, ◌∙◌, refl, sym, ap, subst, true, false, none, some, List, [], ◌∷◌, ◌++◌,
  leb, ◌==◌, arith, Bool-cases, Option-cases, inl, inr, ◌⊎◌, length-append,
}
use turboraft.Snapshot.Sender.{Claim, end_of, behind, ends_claim, last_claim}
use turboraft.Snapshot.Sender.Chain.{Chain, IsClaim, AllClaims, NoSlot, Apart, IsWindow}

ends_claim_le : (k a : ℕ) (cs : List Claim) (n : ℕ) → Chain a cs n → ends_claim k cs ≡ true → a ≤ k
unfolding ends_claim
ends_claim_le k a [] n h e = absurd (ground (arith, e))
ends_claim_le k a (c ∷ cs) n (q, h) e = elim (Bool-cases (end_of c == k)) [
  | inl z ↦ ground (arith, z, q)
  | inr z ↦
      let le = ends_claim_le k (a + c.length) cs n h (ground (arith, e, z)) in omega (arith, le)
]

-- An acknowledged offset that a claim ends at, or that is where the window begins.
abbrev Boundary : ℕ → ℕ → List Claim → Type 0
Boundary k a cs = (ends_claim k cs ≡ true) ⊎ (a ≡ k)

-- A claim that the offset covers leaves a boundary of those behind it.
Boundary-next :
    (k a : ℕ) (c : Claim) (cs : List Claim) (n : ℕ)
    → c.offset ≡ a
    → Boundary k a (c ∷ cs)
    → end_of c ≤ k
    → Boundary k (a + c.length) cs
unfolding ends_claim
Boundary-next k a c cs n q (inl e) le = elim (Bool-cases (end_of c == k)) [
  | inl z ↦ inr (ground (arith, z, q))
  | inr z ↦ inl (ground (arith, e, z))
]
Boundary-next k a c cs n q (inr e) le = inr (omega (arith, q, e, le))

-- Where the offset does not cover the first claim, the window begins there.
Boundary-here :
    (k a : ℕ) (c : Claim) (cs : List Claim) (n : ℕ)
    → Chain a (c ∷ cs) n
    → Boundary k a (c ∷ cs)
    → k < end_of c
    → a ≡ k
unfolding ends_claim
Boundary-here k a c cs n (q, h) (inr e) lt = e
Boundary-here k a c cs n (q, h) (inl e) lt =
    let z : (end_of c == k) ≡ false = ground (arith, lt) in
    let le = ends_claim_le k (a + c.length) cs n h (ground (arith, e, z)) in
    absurd (omega (arith, le, lt, q))

pub IsWindow-behind :
    (size slots k a : ℕ) (cs : List Claim) (n : ℕ)
    → IsWindow size slots a cs n
    → Boundary k a cs
    → IsWindow size slots k (behind k cs) n
unfolding behind
IsWindow-behind size slots k a [] n w (inl e) = absurd (none_ends e)
  where
    none_ends : ends_claim k [] ≡ true → ⊥
    none_ends e = unfold ends_claim in ground (arith, e)
IsWindow-behind size slots k a [] n w (inr e) = record {
  chain = sym e ∙ w.chain;
  claims_valid = tt;
  apart = tt;
  count_le = omega arith;
}
IsWindow-behind size slots k a (c ∷ cs) n w b = elim (Bool-cases (leb (end_of c) k)) [
  | inl le ↦ rw le (
      IsWindow-behind size slots k (a + c.length) cs n
        (record {
          chain = w.chain.1;
          claims_valid = w.claims_valid.1;
          apart = w.apart.1;
          count_le = omega (arith, w.count_le);
        })
        (Boundary-next k a c cs n w.chain.0 b (ground (arith, le))))
  | inr gt ↦
      let here = Boundary-here k a c cs n w.chain b (ground (arith, gt)) in
      rw gt (subst (λ t. IsWindow size slots t (c ∷ cs) n) here w)
]

last_claim_lem :
    (cs : List Claim) (p : List Claim × Claim) → last_claim cs ≡ some p → cs ≡ p.0 ++ p.1 ∷ []
unfolding last_claim
last_claim_lem [] p e = absurd (ground (arith, e))
last_claim_lem (c ∷ cs) p e = elim (Option-cases (last_claim cs)) [
  | inl miss ↦
      let q : ([], c) ≡ p = ground (arith, e, miss) in
      ap (◌∷◌ c) (nothing cs miss) ∙ ap (λ (t : List Claim × Claim). t.0 ++ t.1 ∷ []) q
  | inr found ↦
      let (r, at) = found in
      let q : (c ∷ r.0, r.1) ≡ p = ground (arith, e, at) in
      ap (◌∷◌ c) (last_claim_lem cs r at) ∙ ap (λ (t : List Claim × Claim). t.0 ++ t.1 ∷ []) q
]
  where
    nothing : (cs : List Claim) → last_claim cs ≡ none → cs ≡ []
    nothing [] e = refl
    nothing (x ∷ xs) e = absurd (elim (Option-cases (last_claim xs)) [
      | inl miss ↦ ground (arith, e, miss)
      | inr found ↦ ground (arith, e, found.1)
    ])

Chain-init :
    (a : ℕ) (cs : List Claim) (c : Claim) (n : ℕ) → Chain a (cs ++ c ∷ []) n → Chain a cs c.offset
Chain-init a [] c n h = sym (h.0)
Chain-init a (x ∷ xs) c n (q, h) = (q, Chain-init (a + x.length) xs c n h)

AllClaims-init :
    (P : Claim → Type 0) (cs : List Claim) (c : Claim) → AllClaims P (cs ++ c ∷ []) → AllClaims P cs
AllClaims-init P [] c h = tt
AllClaims-init P (x ∷ xs) c (q, h) = (q, AllClaims-init P xs c h)

NoSlot-init : (slot : ℕ) (cs : List Claim) (c : Claim) → NoSlot slot (cs ++ c ∷ []) → NoSlot slot cs
NoSlot-init slot [] c h = tt
NoSlot-init slot (x ∷ xs) c (q, h) = (q, NoSlot-init slot xs c h)

Apart-init : (cs : List Claim) (c : Claim) → Apart (cs ++ c ∷ []) → Apart cs
Apart-init [] c h = tt
Apart-init (x ∷ xs) c (q, h) = (NoSlot-init x.slot xs c q, Apart-init xs c h)

-- The last claim goes.
pub last_claim-IsWindow :
    (size slots a : ℕ) (cs : List Claim) (n : ℕ) (p : List Claim × Claim)
    → IsWindow size slots a cs n
    → last_claim cs ≡ some p
    → IsWindow size slots a p.0 (p.1).offset × ((p.1).offset ≤ n)
last_claim-IsWindow size slots a cs n p w e =
    let q = last_claim_lem cs p e in
    let w' : IsWindow size slots a (p.0 ++ p.1 ∷ []) n =
      subst (λ t. IsWindow size slots a t n) q w in
    (
      record {
        chain = Chain-init a p.0 p.1 n w'.chain;
        claims_valid = AllClaims-init (IsClaim size slots) p.0 p.1 w'.claims_valid;
        apart = Apart-init p.0 p.1 w'.apart;
        count_le = omega (arith, w'.count_le, length-append p.0 (p.1 ∷ []));
      },
      last_le a p.0 p.1 n w'.chain,
    )
  where
    last_le :
        (a : ℕ) (cs : List Claim) (c : Claim) (n : ℕ) → Chain a (cs ++ c ∷ []) n → c.offset ≤ n
    last_le a [] c n (q, h) = omega (arith, q, h)
    last_le a (x ∷ xs) c n (q, h) = last_le (a + x.length) xs c n h

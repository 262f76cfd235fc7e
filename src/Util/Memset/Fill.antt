-- ===== src/Util/Memset/Fill.antt =====
-- Stores of one value inside a region of a buffer, in any order and as often as one likes.
use libgdb.Prelude.{
  ℕ, zero, suc, ◌+◌, ◌<◌, ◌≤◌, ◌≡◌, refl, ap, sym, ◌∙◌, List, [], ◌∷◌, length, length-set,
  replicate, set, get_elem?, get_elem?-set_self, get_elem?-set_ne, some, arith, ltb, ◌==◌,
  Bool-cases, inl, inr, true,
}
use libgdb.Prelude.Outcome.{ok}
use libgdb.Util.Buffer.{Bytes, store, write_bytes}
use libgdb.Util.Memset.{stores}

-- `b` became `b'` by stores of `v` between `lo` and `hi`.
pub record Fills (v lo hi : ℕ) (b b' : Bytes) : Type 0 where
  pub same_length : length b' ≡ length b
  pub below : (i : ℕ) → i < lo → get_elem? b' i ≡ get_elem? b i
  pub above : (i : ℕ) → hi ≤ i → get_elem? b' i ≡ get_elem? b i
  pub keeps : (i : ℕ) → get_elem? b i ≡ some v → get_elem? b' i ≡ some v

-- The bytes from `q` to below `r` have the value.
abbrev pub Covers : ℕ → ℕ → ℕ → Bytes → Type 0
Covers v q r b = (i : ℕ) → q ≤ i → i < r → get_elem? b i ≡ some v

-- Two parts that overlap, or stand side by side, cover what is from the start of the first to the
-- end of the second.
pub Covers-join :
    (v : ℕ) (x : Bytes) (a b b' c c' : ℕ)
    → Covers v a b x
    → Covers v b' c x
    → b' ≤ b
    → c' ≤ c
    → Covers v a c' x
Covers-join v x a b b' c c' f g touch end i low high = elim (Bool-cases (ltb i b)) [
  | inl before ↦ f i low (ground arith)
  | inr behind ↦ g i (ground arith) (ground arith)
]

module _ (v lo hi : ℕ) where
  pub Fills-refl : (b : Bytes) → Fills v lo hi b b
  Fills-refl b = record {
    same_length = refl;
    below = λ i h. refl;
    above = λ i h. refl;
    keeps = λ i h. h;
  }

  pub Fills-trans : {a b c : Bytes} → Fills v lo hi a b → Fills v lo hi b c → Fills v lo hi a c
  Fills-trans f g = record {
    same_length = g.same_length ∙ f.same_length;
    below = λ i h. g.below i h ∙ f.below i h;
    above = λ i h. g.above i h ∙ f.above i h;
    keeps = λ i h. g.keeps i (f.keeps i h);
  }

  set_here : (b : Bytes) (q i : ℕ) → q ≡ i → q < length b → get_elem? (set b q v) i ≡ some v
  set_here b q i same inside =
      ap (get_elem? (set b q v)) (sym same) ∙ get_elem?-set_self b q v inside

  set-Fills : (b : Bytes) (q : ℕ) → q < length b → lo ≤ q → q < hi → Fills v lo hi b (set b q v)
  set-Fills b q inside low high = record {
    same_length = length-set b q v;
    below = λ i h. get_elem?-set_ne b q i v (λ e. omega arith);
    above = λ i h. get_elem?-set_ne b q i v (λ e. omega arith);
    keeps = λ i h. elim (Bool-cases (q == i)) [
      | inl e ↦ set_here b q i (ground arith) inside
      | inr e ↦ get_elem?-set_ne b q i v (λ e'. ground arith) ∙ h
    ];
  }

  -- An object of `m` bytes that all have the value.
  write_bytes-Fills :
      (b : Bytes) (q m : ℕ)
      → lo ≤ q
      → q + m ≤ hi
      → hi ≤ length b
      → (b' : Bytes) × (write_bytes b q (replicate m v) ≡ ok b')
        × Fills v lo hi b b'
        × Covers v q (q + m) b'
  unfolding write_bytes store
  write_bytes-Fills b q zero low high room = (b, refl, Fills-refl b, λ i h h'. absurd (omega arith))
  write_bytes-Fills b q (suc m) low high room =
      let inside : ltb q (length b) ≡ true = ground arith in
      let (b', e, f, covers) =
        write_bytes-Fills (set b q v) (q + 1) m (omega arith) (omega arith)
          (omega (arith, length-set b q v)) in
      (
        b',
        rw (inside) e,
        Fills-trans (set-Fills b q (omega arith) low (omega arith)) f,
        λ i h h'. elim (Bool-cases (q == i)) [
          | inl same ↦ f.keeps i (set_here b q i (ground arith) (omega arith))
          | inr other ↦ covers i (ground arith) (ground arith)
        ],
      )

  -- The places of objects of `m` bytes inside the region.
  abbrev pub Within : ℕ → List ℕ → Type 0
  Within m [] = Unit {0}
  Within m (q ∷ qs) = (lo ≤ q) × (q + m ≤ hi) × Within m qs

  abbrev pub CoversAll : ℕ → List ℕ → Bytes → Type 0
  CoversAll m [] b = Unit {0}
  CoversAll m (q ∷ qs) b = Covers v q (q + m) b × CoversAll m qs b

  pub stores-Fills :
      (b : Bytes) (m : ℕ) (qs : List ℕ)
      → Within m qs
      → hi ≤ length b
      → (b' : Bytes) × (stores b (replicate m v) qs ≡ ok b')
        × Fills v lo hi b b'
        × CoversAll m qs b'
  unfolding stores
  stores-Fills b m [] h room = (b, refl, Fills-refl b, tt)
  stores-Fills b m (q ∷ qs) (low, high, h) room =
      let (b₁, e₁, f₁, covers₁) = write_bytes-Fills b q m low high room in
      let (b₂, e₂, f₂, covers₂) = stores-Fills b₁ m qs h (omega (arith, f₁.same_length)) in
      (b₂, rw e₁ e₂, Fills-trans f₁ f₂, ((λ i x y. f₂.keeps i (covers₁ i x y)), covers₂))

-- Two buffers with the same bytes at all places.
extensional :
    (b c : Bytes) → length b ≡ length c → ((i : ℕ) → get_elem? b i ≡ get_elem? c i) → b ≡ c
extensional [] [] size same = refl
extensional [] (y ∷ c) size same = absurd (omega arith)
extensional (x ∷ b) [] size same = absurd (omega arith)
extensional (x ∷ b) (y ∷ c) size same =
    let head : some x ≡ some y = same 0 in
    let first : x ≡ y = cc in
    let rest : b ≡ c = extensional b c (omega arith) (λ i. same (suc i)) in rw (first, rest) refl

-- Objects of `m` bytes, each of which starts where the one before it ends or before, from `a` to `c`.
abbrev pub Chain : ℕ → ℕ → ℕ → List ℕ → Type 0
Chain a c m [] = c ≤ a
Chain a c m (q ∷ qs) = (q ≤ a) × Chain (q + m) c m qs

pub Covers-Chain :
    (v lo hi : ℕ) (x : Bytes) (a c m : ℕ) (qs : List ℕ)
    → CoversAll v lo hi m qs x
    → Chain a c m qs
    → Covers v a c x
Covers-Chain v lo hi x a c m [] covers h i low high = absurd (omega arith)
Covers-Chain v lo hi x a c m (q ∷ qs) (here, covers) (start, h) i low high =
    elim (Bool-cases (ltb i (q + m))) [
      | inl before ↦ here i (omega arith) (ground arith)
      | inr behind ↦ Covers-Chain v lo hi x (q + m) c m qs covers h i (ground arith) high
    ]

-- Stores that cover the region do what a store of each of its bytes does.
pub Fills-write_bytes :
    (v p n : ℕ) (b b' : Bytes)
    → p + n ≤ length b
    → Fills v p (p + n) b b'
    → Covers v p (p + n) b'
    → write_bytes b p (replicate n v) ≡ ok b'
Fills-write_bytes v p n b b' room f covers =
    let (c, e, g, covers') = write_bytes-Fills v p (p + n) b p n (omega arith) (omega arith) room in
    e
    ∙ ap ok (
        extensional c b' (g.same_length ∙ sym f.same_length) λ i. elim (Bool-cases (ltb i p)) [
          | inl low ↦ g.below i (ground arith) ∙ sym (f.below i (ground arith))
          | inr rest ↦ elim (Bool-cases (ltb i (p + n))) [
            | inl inside ↦
                covers' i (ground arith) (ground arith)
                ∙ sym (covers i (ground arith) (ground arith))
            | inr high ↦ g.above i (ground arith) ∙ sym (f.above i (ground arith))
          ]
        ])

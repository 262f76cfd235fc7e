-- ===== src/Util/Memset/Reference.antt =====
-- `memset` is a store of each byte.
use libgdb.Prelude.{
  ℕ, ◌+◌, ◌-◌, ◌*◌, ◌/◌, ◌%◌, ◌<◌, ◌≤◌, ◌≡◌, refl, sym, ◌∙◌, false, List, [], ◌∷◌, length,
  replicate, arith, leb, ◌==◌, ne→==, if◌then◌else◌, Bool-cases, inl, inr,
}
use libgdb.Prelude.Outcome.{ok, ◌>>=◌}
use libgdb.Util.Buffer.{Bytes, write_bytes}
use libgdb.Util.Memset.{stores, fill_words, memset}
use libgdb.Util.Memset.Fill.{
  Fills, Fills-trans, Covers, Covers-join, Covers-Chain, CoversAll, stores-Fills, Fills-write_bytes,
}
use libgdb.Util.Memset.Words.{fill_words-Fills}

module _ (v p n : ℕ) where
  -- The places of the bytes that are stored one by one, in the order of the source.
  abbrev firsts : List ℕ
  firsts = (p + n - 1) ∷ p ∷ []

  abbrev seconds : List ℕ
  seconds = (p + n - 2) ∷ (p + 1) ∷ (p + n - 3) ∷ (p + 2) ∷ []

  abbrev thirds : List ℕ
  thirds = (p + n - 4) ∷ (p + 3) ∷ []

  -- In ascending order.
  abbrev six : List ℕ
  six = p ∷ (p + 1) ∷ (p + 2) ∷ (p + n - 3) ∷ (p + n - 2) ∷ (p + n - 1) ∷ []

  seconds-Fills :
      (b : Bytes)
      → p + n ≤ length b
      → 2 < n
      → CoversAll v p (p + n) 1 firsts b
      → (b' : Bytes) × (stores b (replicate 1 v) seconds ≡ ok b')
        × Fills v p (p + n) b b'
        × CoversAll v p (p + n) 1 six b'
  seconds-Fills b room longer (x₀, (x₁, end)) =
      let (b', e, f, (y₀, (y₁, (y₂, (y₃, end'))))) =
        stores-Fills v p (p + n) b 1 seconds (omega arith) room in
      (
        b',
        e,
        f,
        (
          (λ i x y. f.keeps i (x₁ i x y)),
          (y₁, (y₃, (y₂, (y₀, ((λ i x y. f.keeps i (x₀ i x y)), tt))))),
        ),
      )

  -- The third batch and the words.
  thirds-Fills :
      (base : ℕ) (b : Bytes)
      → v < 256
      → p + n ≤ length b
      → 6 < n
      → CoversAll v p (p + n) 1 six b
      → (b' : Bytes) × ((stores b (replicate 1 v) thirds >>= λ b₃.
            if leb n 8
            then ok b₃
            else fill_words base b₃
                (p + (4 - (base + p) % 4) % 4)
                v
                ((n - (4 - (base + p) % 4) % 4) / 4 * 4))
          ≡ ok b')
        × Fills v p (p + n) b b'
        × Covers v p (p + n) b'
  thirds-Fills base b byte room longer (x₀, (x₁, (x₂, (x₃, (x₄, (x₅, end)))))) =
      let (b₁, e₁, f₁, (y₀, (y₁, end'))) = stores-Fills v p (p + n) b 1 thirds (omega arith) room in
      let head =
        Covers-Chain v p (p + n) b₁ p (p + 4) 1 (p ∷ (p + 1) ∷ (p + 2) ∷ (p + 3) ∷ [])
          (
            (λ i x y. f₁.keeps i (x₀ i x y)),
            ((λ i x y. f₁.keeps i (x₁ i x y)), ((λ i x y. f₁.keeps i (x₂ i x y)), (y₁, tt))),
          )
          (omega arith) in
      let tail =
        Covers-Chain v p (p + n) b₁ (p + n - 4) (p + n) 1
          ((p + n - 4) ∷ (p + n - 3) ∷ (p + n - 2) ∷ (p + n - 1) ∷ [])
          (
            y₀,
            (
              (λ i x y. f₁.keeps i (x₃ i x y)),
              ((λ i x y. f₁.keeps i (x₄ i x y)), ((λ i x y. f₁.keeps i (x₅ i x y)), tt)),
            ),
          )
          (omega arith) in
      let k : ℕ = (4 - (base + p) % 4) % 4 in
      elim (Bool-cases (leb n 8)) [
        | inl short ↦ (
          b₁,
          rw (e₁, short) refl,
          f₁,
          Covers-join v b₁ p _ _ _ (p + n) head tail (ground arith) (omega arith),
        )
        | inr long ↦
            let wide : 8 < n = ground arith in
            let (b₂, e₂, f₂, c₂) =
              fill_words-Fills v p (p + n) base (p + k) ((n - k) / 4 * 4) (omega arith)
                (omega arith) (omega arith) byte b₁ (omega (arith, f₁.same_length)) (omega arith) in
            let start =
              Covers-join v b₂ p _ _ _ (p + k + (n - k) / 4 * 4) (λ i x y. f₂.keeps i (head i x y))
                c₂ (omega arith) (omega arith) in
            (
              b₂,
              rw (e₁, long) e₂,
              Fills-trans v p (p + n) f₁ f₂,
              Covers-join v b₂ p _ _ _ (p + n) start (λ i x y. f₂.keeps i (tail i x y))
                  (omega arith) (omega arith),
            )
      ]

module _ (base : ℕ) (buf : Bytes) (p c n : ℕ) (room : p + n ≤ length buf) where
  memset-Fills :
      0 < n
      → (b' : Bytes) × (memset base buf p c n ≡ ok b')
        × Fills (c % 256) p (p + n) buf b'
        × Covers (c % 256) p (p + n) b'
  unfolding memset
  memset-Fills some_left =
      let v : ℕ = c % 256 in
      let some_bytes : (n == 0) ≡ false = ne→== n 0 (λ e. omega arith) in
      let (b₁, e₁, f₁, c₁) = stores-Fills v p (p + n) buf 1 (firsts v p n) (omega arith) room in
      elim (Bool-cases (leb n 2)) [
        | inl short ↦
            let (x₀, (x₁, end)) = c₁ in
            (
              b₁,
              rw (some_bytes, e₁, short) refl,
              f₁,
              Covers-Chain v p (p + n) b₁ p (p + n) 1 (p ∷ (p + n - 1) ∷ []) (x₁, (x₀, tt))
                  (ground arith),
            )
        | inr longer ↦
            let (b₂, e₂, f₂, c₂) =
              seconds-Fills v p n b₁ (omega (arith, f₁.same_length)) (ground arith) c₁ in
            let f₁₂ = Fills-trans v p (p + n) f₁ f₂ in
            elim (Bool-cases (leb n 6)) [
              | inl middle ↦ (
                b₂,
                rw (some_bytes, e₁, longer, e₂, middle) refl,
                f₁₂,
                Covers-Chain v p (p + n) b₂ p (p + n) 1 (six v p n) c₂ (ground arith),
              )
              | inr long ↦
                  let (b₃, e₃, f₃, c₃) =
                    thirds-Fills v p n base b₂ (omega arith) (omega (arith, f₁₂.same_length))
                      (ground arith) c₂ in
                  (b₃, rw (some_bytes, e₁, longer, e₂, long) e₃, Fills-trans v p (p + n) f₁₂ f₃, c₃)
            ]
      ]

  -- Inside an object, memset with its overlapping stores of bytes, words and double words from both
  -- ends does what a loop that stores the lowest byte of c at each of the n places does, whatever
  -- the address of the object, its contents and n; nothing else changes.
  pub memset-write_bytes : memset base buf p c n ≡ write_bytes buf p (replicate n (c % 256))
  unfolding memset write_bytes
  memset-write_bytes = elim (Bool-cases (n == 0)) [
    | inl none ↦ let e : n ≡ 0 = ground arith in rw e refl
    | inr some_bytes ↦
        let (b', e, f, covers) = memset-Fills (ground arith) in
        e ∙ sym (Fills-write_bytes (c % 256) p n buf b' room f covers)
  ]

-- ===== src/Util/Memset/Words.antt =====
-- The word stores of `memset`.
use libgdb.Prelude.{
  ℕ, zero, suc, ◌+◌, ◌-◌, ◌*◌, ◌/◌, ◌%◌, ◌^◌, ◌<◌, ◌≤◌, ◌≡◌, refl, List, [], ◌∷◌, length, replicate,
  arith, leb, Bool-cases, inl, inr,
}
use libgdb.Prelude.Outcome.{ok, ◌>>=◌}
use libgdb.Util.Buffer.{Bytes, object_bytes}
use libgdb.Util.Memset.{stores, fill_loop, fill_words}
use libgdb.Util.Memset.Fill.{
  Fills, Fills-refl, Fills-trans, Covers, Covers-join, Covers-Chain, CoversAll, stores-Fills,
}

-- A word of four, and of eight, equal bytes.
four_bytes : (c : ℕ) → c < 256 → object_bytes 4 ((2 ^ 32 - 1) / 255 * c) ≡ replicate 4 c
unfolding object_bytes
four_bytes c h =
    let a : (2 ^ 32 - 1) / 255 * c % 256 ≡ c = omega arith in
    let b : (2 ^ 32 - 1) / 255 * c / 256 % 256 ≡ c = omega arith in
    let d : (2 ^ 32 - 1) / 255 * c / 256 / 256 % 256 ≡ c = omega arith in
    let e : (2 ^ 32 - 1) / 255 * c / 256 / 256 / 256 % 256 ≡ c = omega arith in rw (a, b, d, e) refl

eight_bytes :
    (c : ℕ)
    → c < 256
    → object_bytes 8 ((2 ^ 32 - 1) / 255 * c + 2 ^ 32 * ((2 ^ 32 - 1) / 255 * c)) ≡ replicate 8 c
unfolding object_bytes
eight_bytes c h =
    let w : ℕ = (2 ^ 32 - 1) / 255 * c + 2 ^ 32 * ((2 ^ 32 - 1) / 255 * c) in
    let a : w % 256 ≡ c = omega arith in
    let b : w / 256 % 256 ≡ c = omega arith in
    let d : w / 256 / 256 % 256 ≡ c = omega arith in
    let e : w / 256 / 256 / 256 % 256 ≡ c = omega arith in
    let f : w / 256 / 256 / 256 / 256 % 256 ≡ c = omega arith in
    let g : w / 256 / 256 / 256 / 256 / 256 % 256 ≡ c = omega arith in
    let i : w / 256 / 256 / 256 / 256 / 256 / 256 % 256 ≡ c = omega arith in
    let j : w / 256 / 256 / 256 / 256 / 256 / 256 / 256 % 256 ≡ c = omega arith in
    rw (a, b, d, e, f, g, i, j) refl

module _ (v lo hi : ℕ) where
  fill_loop-Fills :
      (rounds : ℕ) (b : Bytes) (s : ℕ)
      → lo ≤ s
      → s + 32 * rounds ≤ hi
      → hi ≤ length b
      → (b' : Bytes) × (fill_loop b (replicate 8 v) s rounds ≡ ok b')
        × Fills v lo hi b b'
        × Covers v s (s + 32 * rounds) b'
  unfolding fill_loop
  fill_loop-Fills zero b s low high room =
      (b, refl, Fills-refl v lo hi b, λ i x y. absurd (omega arith))
  fill_loop-Fills (suc rounds) b s low high room =
      let (b₁, e₁, f₁, c₁) =
        stores-Fills v lo hi b 8 (s ∷ (s + 8) ∷ (s + 16) ∷ (s + 24) ∷ []) (omega arith) room in
      let (b₂, e₂, f₂, c₂) =
        fill_loop-Fills rounds b₁ (s + 32) (omega arith) (omega arith)
          (omega (arith, f₁.same_length)) in
      let first =
        Covers-Chain v lo hi b₁ s (s + 32) 8 (s ∷ (s + 8) ∷ (s + 16) ∷ (s + 24) ∷ []) c₁
          (omega arith) in
      (
        b₂,
        rw e₁ e₂,
        Fills-trans v lo hi f₁ f₂,
        Covers-join v b₂ s _ _ _ _ (λ i x y. f₂.keeps i (first i x y)) c₂ (omega arith)
            (omega arith),
      )

  module _ (base s n : ℕ) (low : lo ≤ s) (high : s + n ≤ hi) (words : n % 4 ≡ 0) where
    -- The places of the words that are stored one by one, in the order of the source.
    abbrev firsts : List ℕ
    firsts = s ∷ (s + n - 4) ∷ []

    abbrev seconds : List ℕ
    seconds = (s + 4) ∷ (s + 8) ∷ (s + n - 12) ∷ (s + n - 8) ∷ []

    abbrev thirds : List ℕ
    thirds =
        (s + 12)
        ∷ (s + 16)
        ∷ (s + 20)
        ∷ (s + 24)
        ∷ (s + n - 28)
        ∷ (s + n - 24)
        ∷ (s + n - 20)
        ∷ (s + n - 16)
        ∷ []

    -- From the two ends inwards.
    abbrev six : List ℕ
    six = s ∷ (s + 4) ∷ (s + 8) ∷ (s + n - 12) ∷ (s + n - 8) ∷ (s + n - 4) ∷ []

    seconds-Fills :
        (b : Bytes)
        → hi ≤ length b
        → 8 < n
        → CoversAll v lo hi 4 firsts b
        → (b' : Bytes) × (stores b (replicate 4 v) seconds ≡ ok b')
          × Fills v lo hi b b'
          × CoversAll v lo hi 4 six b'
    seconds-Fills b room longer (x₀, (x₁, end)) =
        let (b', e, f, (y₀, (y₁, (y₂, (y₃, end'))))) =
          stores-Fills v lo hi b 4 seconds (omega arith) room in
        (
          b',
          e,
          f,
          (
            (λ i x y. f.keeps i (x₀ i x y)),
            (y₀, (y₁, (y₂, (y₃, ((λ i x y. f.keeps i (x₁ i x y)), tt))))),
          ),
        )

    -- The third batch and the loop.
    thirds-Fills :
        (b : Bytes)
        → hi ≤ length b
        → 24 < n
        → CoversAll v lo hi 4 six b
        → (b' : Bytes) × ((stores b (replicate 4 v) thirds >>= λ b₃.
              fill_loop b₃
                (replicate 8 v)
                (s + (24 + (base + s) % 8 / 4 * 4))
                ((n - (24 + (base + s) % 8 / 4 * 4)) / 32))
            ≡ ok b')
          × Fills v lo hi b b'
          × Covers v s (s + n) b'
    thirds-Fills b room longer (x₀, (x₁, (x₂, (x₃, (x₄, (x₅, end)))))) =
        let (b₁, e₁, f₁, (y₀, (y₁, (y₂, (y₃, (y₄, (y₅, (y₆, (y₇, end'))))))))) =
          stores-Fills v lo hi b 4 thirds (omega arith) room in
        let k : ℕ = 24 + (base + s) % 8 / 4 * 4 in
        let (b₂, e₂, f₂, loop) =
          fill_loop-Fills ((n - k) / 32) b₁ (s + k) (omega arith) (omega arith)
            (omega (arith, f₁.same_length)) in
        let f = Fills-trans v lo hi f₁ f₂ in
        let head =
          Covers-Chain v lo hi b₂ s (s + 28) 4
            (s ∷ (s + 4) ∷ (s + 8) ∷ (s + 12) ∷ (s + 16) ∷ (s + 20) ∷ (s + 24) ∷ [])
            (
              (λ i x y. f.keeps i (x₀ i x y)),
              (
                (λ i x y. f.keeps i (x₁ i x y)),
                (
                  (λ i x y. f.keeps i (x₂ i x y)),
                  (
                    (λ i x y. f₂.keeps i (y₀ i x y)),
                    (
                      (λ i x y. f₂.keeps i (y₁ i x y)),
                      ((λ i x y. f₂.keeps i (y₂ i x y)), ((λ i x y. f₂.keeps i (y₃ i x y)), tt)),
                    ),
                  ),
                ),
              ),
            )
            (omega arith) in
        let tail =
          Covers-Chain v lo hi b₂ (s + n - 28) (s + n) 4
            ((s + n - 28)
              ∷ (s + n - 24)
              ∷ (s + n - 20)
              ∷ (s + n - 16)
              ∷ (s + n - 12)
              ∷ (s + n - 8)
              ∷ (s + n - 4)
              ∷ [])
            (
              (λ i x y. f₂.keeps i (y₄ i x y)),
              (
                (λ i x y. f₂.keeps i (y₅ i x y)),
                (
                  (λ i x y. f₂.keeps i (y₆ i x y)),
                  (
                    (λ i x y. f₂.keeps i (y₇ i x y)),
                    (
                      (λ i x y. f.keeps i (x₃ i x y)),
                      ((λ i x y. f.keeps i (x₄ i x y)), ((λ i x y. f.keeps i (x₅ i x y)), tt)),
                    ),
                  ),
                ),
              ),
            )
            (omega arith) in
        let start =
          Covers-join v b₂ s _ _ _ (s + k + 32 * ((n - k) / 32)) head loop (omega arith)
            (omega arith) in
        (b₂, rw e₁ e₂, f, Covers-join v b₂ s _ _ _ (s + n) start tail (omega arith) (omega arith))

    pub fill_words-Fills :
        v < 256
        → (b : Bytes) → hi ≤ length b
        → 0 < n
        → (b' : Bytes) × (fill_words base b s v n ≡ ok b')
          × Fills v lo hi b b'
          × Covers v s (s + n) b'
    unfolding fill_words
    fill_words-Fills byte b room some_left =
        let (b₁, e₁, f₁, c₁) = stores-Fills v lo hi b 4 firsts (omega arith) room in
        let word = four_bytes v byte in
        let double = eight_bytes v byte in
        elim (Bool-cases (leb n 8)) [
          | inl short ↦ (
            b₁,
            rw (word, e₁, short) refl,
            f₁,
            Covers-Chain v lo hi b₁ s (s + n) 4 firsts c₁ (ground arith),
          )
          | inr longer ↦
              let room₁ : hi ≤ length b₁ = omega (arith, f₁.same_length) in
              let (b₂, e₂, f₂, c₂) = seconds-Fills b₁ room₁ (ground arith) c₁ in
              let f₁₂ = Fills-trans v lo hi f₁ f₂ in
              elim (Bool-cases (leb n 24)) [
                | inl middle ↦ (
                  b₂,
                  rw (word, e₁, longer, e₂, middle) refl,
                  f₁₂,
                  Covers-Chain v lo hi b₂ s (s + n) 4 six c₂ (ground arith),
                )
                | inr long ↦
                    let (b₃, e₃, f₃, c₃) =
                      thirds-Fills b₂ (omega (arith, f₁₂.same_length)) (ground arith) c₂ in
                    (b₃, rw (word, double, e₁, longer, e₂, long) e₃, Fills-trans v lo hi f₁₂ f₃, c₃)
              ]
        ]

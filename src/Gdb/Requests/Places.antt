-- ===== src/Gdb/Requests/Places.antt =====
-- Loops that take out the entries of a table one after the other, by a search for each.
use libgdb.Prelude.{
  ℕ, suc, ◌+◌, ◌≡◌, refl, ap, sym, ◌∙◌, Bool, true, false, Bool-cases, inl, inr, List, [], ◌∷◌,
  ◌++◌, length, some, get_elem?, arith, if◌then◌else◌,
}
use libgdb.Prelude.Search.{find_index, update}

-- The index of the first entry that passes a test, or the number of entries.
abbrev pub first_like : {A : Type 0} → (A → Bool) → List A → ℕ
first_like test [] = 0
first_like test (d ∷ ds) = if test d then 0 else suc (first_like test ds)

-- The entries that a function leaves alone.
abbrev pub AllFixed : {A : Type 0} → (A → A) → List A → Type 0
AllFixed f [] = Unit {0}
AllFixed f (d ∷ ds) = (f d ≡ d) × AllFixed f ds

pub AllFixed-behind :
    {A : Type 0} (f : A → A) (done : List A) (b : A)
    → AllFixed f done
    → f b ≡ b
    → AllFixed f (done ++ (b ∷ []))
AllFixed-behind f [] b h h' = (h', tt)
AllFixed-behind f (d ∷ ds) b (hd, hs) h' = (hd, AllFixed-behind f ds b hs h')

pub get_elem?-behind :
    {A : Type 0} (done : List A) (b : A) (rest : List A)
    → get_elem? (done ++ (b ∷ rest)) (length done) ≡ some b
get_elem?-behind [] b rest = refl
get_elem?-behind (d ∷ ds) b rest = get_elem?-behind ds b rest

pub length-behind :
    {A : Type 0} (done : List A) (b : A) → length (done ++ (b ∷ [])) ≡ length done + 1
length-behind [] b = refl
length-behind (d ∷ ds) b = omega (arith, length-behind ds b)

find_index-first_like_from :
    {A : Type 0} (test : A → Bool) (done : List A) (b : A) (rest : List A) (n : ℕ)
    → test b ≡ true
    → find_index test (done ++ (b ∷ rest)) n ≡ some (n + first_like test done)
unfolding find_index
find_index-first_like_from test [] b rest n h = rw h (ap some (omega arith))
find_index-first_like_from test (d ∷ ds) b rest n h = elim (Bool-cases (test d)) [
  | inl e ↦ rw e (ap some (omega arith))
  | inr e ↦ rw (e, find_index-first_like_from test ds b rest (n + 1) h) (ap some (omega arith))
]

pub find_index-first_like :
    {A : Type 0} (test : A → Bool) (done : List A) (b : A) (rest : List A)
    → test b ≡ true
    → find_index test (done ++ (b ∷ rest)) 0 ≡ some (first_like test done)
find_index-first_like test done b rest h =
    find_index-first_like_from test done b rest 0 h ∙ ap some (omega arith)

-- The entry that is found is changed as the next one is: if it is an earlier one, both stay.
pub update-first_like :
    {A : Type 0} (test : A → Bool) (f : A → A) (done : List A) (b : A) (rest : List A)
    → AllFixed f done
    → ((d : A) → f d ≡ d → test d ≡ true → f b ≡ b)
    → update f (done ++ (b ∷ rest)) (first_like test done) ≡ done ++ (f b ∷ rest)
unfolding update
update-first_like test f [] b rest fixed like = refl
update-first_like test f (d ∷ ds) b rest (hd, hs) like = elim (Bool-cases (test d)) [
  | inl e ↦
      rw e
        (ap (λ x. x ∷ (ds ++ (b ∷ rest))) hd ∙ ap (λ x. d ∷ (ds ++ (x ∷ rest))) (sym (like d hd e)))
  | inr e ↦ rw e (ap (λ l. d ∷ l) (update-first_like test f ds b rest hs like))
]

pub first_like-length :
    {A : Type 0} (test : A → Bool) (f : A → A) (done : List A)
    → AllFixed f done
    → ((d : A) → f d ≡ d → test d ≡ false)
    → first_like test done ≡ length done
first_like-length test f [] fixed other = refl
first_like-length test f (d ∷ ds) (hd, hs) other =
    rw (other d hd) (ap suc (first_like-length test f ds hs other))

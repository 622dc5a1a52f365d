-- ===== src/Roots/Words.antt =====
-- split (lib/string.cc) gives back the words that were put together.
use bees.Base.{
  ℕ, ◌≡◌, refl, ap, ◌∙◌, false, List, [], ◌∷◌, ◌++◌, All, ◌==◌, arith, then_branch, else_branch,
}
use bees.Roots.Text.{Text, push_word, first_word, split}

-- A word without the delimiter.
abbrev pub IsWord : ℕ → Text → Type 0
IsWord delim = All (λ c. (c == delim) ≡ false)

first_word_lem :
    (delim : ℕ) (w s : Text)
    → IsWord delim w
    → first_word delim (w ++ delim ∷ s) ≡ (w, split delim s)
unfolding split
first_word_lem delim [] s h =
    let r = first_word delim s in
    then_branch (delim == delim) ([], push_word r.0 r.1) (delim ∷ r.0, r.1) (ground arith)
first_word_lem delim (c ∷ w) s h =
    let r = first_word delim (w ++ delim ∷ s) in
    else_branch (c == delim) ([], push_word r.0 r.1) (c ∷ r.0, r.1) h.0
    ∙ ap (λ (p : Text × List Text). (c ∷ p.0, p.1)) (first_word_lem delim w s h.1)

pub split_word :
    (delim : ℕ) (w s : Text)
    → IsWord delim w
    → split delim (w ++ delim ∷ s) ≡ push_word w (split delim s)
unfolding split
split_word delim w s h =
    ap (λ (p : Text × List Text). push_word p.0 p.1) (first_word_lem delim w s h)

-- The last word, without a delimiter behind it.
pub split_last : (delim : ℕ) (w : Text) → IsWord delim w → split delim w ≡ push_word w []
unfolding split
split_last delim w h = ap (λ (p : Text × List Text). push_word p.0 p.1) (go w h)
  where
    go : (w : Text) → IsWord delim w → first_word delim w ≡ (w, [])
    go [] h = refl
    go (c ∷ w) h =
        let r = first_word delim w in
        else_branch (c == delim) ([], push_word r.0 r.1) (c ∷ r.0, r.1) h.0
        ∙ ap (λ (p : Text × List Text). (c ∷ p.0, p.1)) (go w h.1)

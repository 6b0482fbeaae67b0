-- ===== src/Manager/Kernel/Version.antt =====
-- `detect_kernel_version` of oathgate/src/cmd/kernel.rs. What the programs `file` and `strings` print
-- is a parameter: text as its bytes, or an error.
use oathgate.Common.{
  ℕ, ◌≡◌, ap, ◌∙◌, arith, Bool, true, false, ◌&&◌, List, [], ◌∷◌, ◌++◌, ◌==◌, if◌then◌else◌, Option,
  none, some, Outcome, ok, ◌>>=◌, All,
}
use oathgate.Common.Split.{split, IsPart, split-part, split-append}
use oathgate.Manager.Database.{Error}
use oathgate.Manager.Database.Table.{same}
use oathgate.Manager.Database.Table.Laws.{same_refl}

-- `\r` before the end of a line.
unfoldable strip_cr : List ℕ → List ℕ
strip_cr [] = []
strip_cr (c ∷ []) = if c == 13 then [] else c ∷ []
strip_cr (c ∷ d ∷ cs) = c ∷ strip_cr (d ∷ cs)

-- The last part has no end of line, and is a line unless it is empty.
unfoldable ended : List (List ℕ) → List (List ℕ)
unfolding strip_cr
ended [] = []
ended (l ∷ []) = elim l [ [] ↦ [] | c ∷ cs ↦ (c ∷ cs) ∷ [] ]
ended (l ∷ m ∷ ls) = strip_cr l ∷ ended (m ∷ ls)

unfoldable pub lines : List ℕ → List (List ℕ)
unfolding split ended
lines s = ended (split 10 s)

unfoldable pub starts_with : List ℕ → List ℕ → Bool
starts_with [] s = true
starts_with (p ∷ ps) [] = false
starts_with (p ∷ ps) (c ∷ cs) = p == c && starts_with ps cs

-- `skip_while(|s| *s != word).skip(1).next()`
unfoldable pub word_after : List ℕ → List (List ℕ) → Option (List ℕ)
unfolding same
word_after word [] = none
word_after word (w ∷ ws) =
    let rest = word_after word ws in
    if same w word then elim ws [ [] ↦ none | v ∷ vs ↦ some v ] else rest

-- `version`
abbrev pub version_word : List ℕ
version_word = 118 ∷ 101 ∷ 114 ∷ 115 ∷ 105 ∷ 111 ∷ 110 ∷ []

unfoldable pub extract : List ℕ → Option (List ℕ)
unfolding split word_after
extract output = word_after version_word (split 32 output)

unfoldable pub find_line : List ℕ → List (List ℕ) → Option (List ℕ)
unfolding starts_with
find_line prefix [] = none
find_line prefix (l ∷ ls) =
    let rest = find_line prefix ls in if starts_with prefix l then some l else rest

-- `Linux kernel`
abbrev linux_kernel : List ℕ
linux_kernel = 76 ∷ 105 ∷ 110 ∷ 117 ∷ 120 ∷ 32 ∷ 107 ∷ 101 ∷ 114 ∷ 110 ∷ 101 ∷ 108 ∷ []

-- `ELF`
abbrev elf : List ℕ
elf = 69 ∷ 76 ∷ 70 ∷ []

-- `Linux version`
abbrev linux_version : List ℕ
linux_version = 76 ∷ 105 ∷ 110 ∷ 117 ∷ 120 ∷ 32 ∷ version_word

-- The version in the first line that `strings` gives for one.
unfoldable of_strings : List ℕ → Option (List ℕ)
unfolding find_line lines extract
of_strings text = elim (find_line linux_version (lines text)) [ none ↦ none | some l ↦ extract l ]

unfoldable pub detect_kernel_version :
    (file strings : Outcome Error (List ℕ)) → Outcome Error (Option (List ℕ))
unfolding starts_with extract of_strings
detect_kernel_version file strings = do
  output ← file
  (if starts_with linux_kernel output
      then ok (extract output)
      else if starts_with elf output
      then (strings >>= λ text. ok (of_strings text))
      else ok none)

-- Words with a space after each but the last.
abbrev pub join_words : List ℕ → List (List ℕ) → List ℕ
join_words w [] = w
join_words w (v ∷ vs) = w ++ 32 ∷ join_words v vs

-- A word without spaces.
abbrev pub IsWord : List ℕ → Type 0
IsWord w = IsPart 32 w

split-join_words :
    (w : List ℕ) (ws : List (List ℕ))
    → IsWord w
    → All IsWord ws
    → split 32 (join_words w ws) ≡ w ∷ ws
split-join_words w [] h hs = split-part 32 w h
split-join_words w (v ∷ vs) h hs =
    split-append 32 w (join_words v vs) h ∙ ap (◌∷◌ w) (split-join_words v vs hs.0 hs.1)

word_after-append :
    (word v : List ℕ) (before rest : List (List ℕ))
    → All (λ w. same w word ≡ false) before
    → word_after word (before ++ word ∷ v ∷ rest) ≡ some v
unfolding word_after
word_after-append word v [] rest h = ground (arith, same_refl word)
word_after-append word v (w ∷ ws) rest h = ground (arith, h.0, word_after-append word v ws rest h.1)

-- Of a text of words with one space between each two, of which none before `version` is that word,
-- the word after `version` is taken.
pub extract-join_words :
    (first v : List ℕ) (before rest : List (List ℕ))
    → IsWord first
    → All IsWord (before ++ version_word ∷ v ∷ rest)
    → All (λ w. same w version_word ≡ false) (first ∷ before)
    → extract (join_words first (before ++ version_word ∷ v ∷ rest)) ≡ some v
unfolding extract
extract-join_words first v before rest h hs hb =
    ap (word_after version_word) (split-join_words first (before ++ version_word ∷ v ∷ rest) h hs)
    ∙ word_after-append version_word v (first ∷ before) rest hb

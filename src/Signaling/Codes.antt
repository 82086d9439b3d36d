-- ===== src/Signaling/Codes.antt =====
-- internal/signaling/codes.go: transfer codes of three words.
pub mod Distinct
use p2pft.Prelude.{ℕ, zero, suc, Option, none, some, List, [], ◌∷◌, ◌++◌, map, String, codes, Text}
use p2pft.Io.Result.{Error, Result, ok, err, message, wrap}

abbrev names : List String
names =
    "amber" ∷ "anchor" ∷ "apple" ∷ "arrow" ∷ "basket" ∷ "bridge" ∷ "candle" ∷ "cliff" ∷ "copper"
    ∷ "dahlia" ∷ "ember" ∷ "falcon" ∷ "forest" ∷ "garnet" ∷ "harbor" ∷ "indigo" ∷ "jasper"
    ∷ "kettle" ∷ "lantern" ∷ "meadow" ∷ "nectar" ∷ "orchard" ∷ "pebble" ∷ "quartz" ∷ "raven"
    ∷ "saffron" ∷ "tundra" ∷ "velvet" ∷ "willow" ∷ "yarrow" ∷ "zephyr" ∷ "obsidian" ∷ []

abbrev pub wordlist : List Text
wordlist = map codes names

-- `wordlist[n]`; an index out of range panics.
abbrev pub word_at : List Text → ℕ → Result Text
word_at [] n = err (message "index out of range")
word_at (w ∷ ws) zero = ok w
word_at (w ∷ ws) (suc n) = word_at ws n

-- One round of the loop, on what `rand.Int(rand.Reader, max)` answers.
abbrev pub pick : Result ℕ → Result Text
pick (ok n) = word_at wordlist n
pick (err e) = err (wrap "random" e)

abbrev pub join : Text → Text → Text → Text
join a b c = a ++ (codes "-" ++ (b ++ (codes "-" ++ c)))

abbrev pub then_pick : Result Text → (Text → Result Text) → Result Text
then_pick (ok w) k = k w
then_pick (err e) k = err e

-- The three draws are arguments.
unfoldable pub generate_code : Result ℕ → Result ℕ → Result ℕ → Result Text
generate_code i j k =
    then_pick (pick i) λ a. then_pick (pick j) λ b. then_pick (pick k) λ c. ok (join a b c)

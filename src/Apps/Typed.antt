-- ===== src/Apps/Typed.antt =====
-- confessions/confessions.go: `Message` of `confessionsGenerator`, the text that somebody types for a
-- round; localconfessions/confessions.go takes the newline off in the same way.
use eggscrambler.Base.{
  ℕ, ◌≡◌, refl, ap, ◌==◌, if◌then◌else◌, Bool, true, false, Option, none, some, [], ◌∷◌, ◌++◌,
  arith, length,
}
use eggscrambler.Crypto.Bytes.{Bytes}
use eggscrambler.Client.Results.{same_bytes, bytes_equal}

abbrev newline : ℕ
newline = 10

-- The text `poison`, which ends a call of `Message` that waits.
abbrev pub poison : Bytes
poison = 112 ∷ 111 ∷ 105 ∷ 115 ∷ 111 ∷ 110 ∷ []

-- `strings.TrimSuffix(msg, "\n")`
unfoldable pub trim_newline : Bytes → Bytes
trim_newline [] = []
trim_newline (x ∷ []) = if x == newline then [] else x ∷ []
trim_newline (x ∷ y ∷ ys) = x ∷ trim_newline (y ∷ ys)

-- What the loop of `Message` receives: a text, or that its time is over.
pub data Typed : Type 0 where
  typed : Bytes → Typed
  too_late : Typed

-- `Message`; `none` is the answer `nil`.
unfoldable pub message_typed : Typed → Option Bytes
message_typed too_late = some (trim_newline [])
message_typed (typed text) = if bytes_equal text poison then none else some (trim_newline text)

-- A line that is read ends with its newline.
abbrev pub read_line : Bytes → Bytes
read_line line = line ++ (newline ∷ [])

abbrev holds_newline : Bytes → Bool
holds_newline [] = false
holds_newline (x ∷ xs) = if x == newline then true else holds_newline xs

read_line-holds_newline :
    (line xs : Bytes)
    → same_bytes (read_line line) xs ≡ true
    → length (read_line line) ≡ length xs
    → holds_newline xs ≡ true
read_line-holds_newline [] [] h k = ground arith
read_line-holds_newline [] (x ∷ xs) h k = ground arith
read_line-holds_newline (l ∷ ls) [] h k = ground arith
read_line-holds_newline (l ∷ ls) (x ∷ xs) h k = ground (arith, read_line-holds_newline ls xs)

trim_newline-read_line : (line : Bytes) → trim_newline (read_line line) ≡ line
unfolding trim_newline
trim_newline-read_line [] = refl
trim_newline-read_line (x ∷ []) = refl
trim_newline-read_line (x ∷ y ∷ ys) = ap (λ (l : Bytes). x ∷ l) (trim_newline-read_line (y ∷ ys))

-- Each line that somebody types is the message, without its newline, whatever the line: also a line
-- that reads `poison` is.
pub message_typed-read_line : (line : Bytes) → message_typed (typed (read_line line)) ≡ some line
unfolding message_typed
message_typed-read_line line =
    ground (arith, read_line-holds_newline line poison, trim_newline-read_line line)

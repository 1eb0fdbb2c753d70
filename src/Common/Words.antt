-- ===== src/Common/Words.antt =====
-- More of Rust's `str`: white space, joining, searching and filtering.
use Prim.Native.Nat.{ℕ, zero, suc, ◌+◌, ◌-◌, ◌/◌, ◌%◌}
use Prim.Native.Char.{code}
use Prim.Native.String.{String, ◌++◌, len, find, slice}
use mathlib.Core.Bool.{Bool, true, false}
use mathlib.Core.List.{List, [], ◌∷◌}
use text.Mathlib.Text.{◌==◌}
use surreal_memory_server.Common.Tests.{ltb, leb, if◌then◌else◌}
use surreal_memory_server.Common.Text.{is_whitespace}

-- Whether a text begins inside a word.
unfoldable pub begins_word : String → Bool
unfolding is_whitespace
begins_word String.[] = false
begins_word (String.◌∷◌ c s) = if is_whitespace (code c) then false else true

-- A character in front of the first word.
unfoldable pub onto_first : String → List String → List String
onto_first c [] = c ∷ []
onto_first c (w ∷ ws) = (c ++ w) ∷ ws

-- `s.split_whitespace()`.
unfoldable pub split_whitespace : String → List String
unfolding is_whitespace begins_word onto_first
split_whitespace String.[] = []
split_whitespace (String.◌∷◌ c s) =
    let rest = split_whitespace s in
    let here = String.◌∷◌ c String.[] in
    if is_whitespace (code c)
    then rest
    else if begins_word s
    then onto_first here rest
    else here ∷ rest

-- `words.join(separator)`.
unfoldable pub join : String → List String → String
join separator [] = ""
join separator (w ∷ []) = w
join separator (w ∷ v ∷ ws) = w ++ (separator ++ join separator (v ∷ ws))

-- `s.contains(t)`: the search answers a place inside `s`.
unfoldable pub contains : String → String → Bool
contains s t = leb (find s t) (len s)

unfoldable pub starts_with : String → String → Bool
starts_with s t = slice s 0 (len t) == t

unfoldable pub ends_with : String → String → Bool
ends_with s t = if leb (len t) (len s) then slice s (len s - len t) (len s) == t else false

-- `s.chars().filter(p).collect()`.
unfoldable pub keep_chars : (ℕ → Bool) → String → String
keep_chars p String.[] = String.[]
keep_chars p (String.◌∷◌ c s) =
    let rest = keep_chars p s in if p (code c) then String.◌∷◌ c rest else rest

-- `s.chars().all(p)`.
unfoldable pub all_chars : (ℕ → Bool) → String → Bool
all_chars p String.[] = true
all_chars p (String.◌∷◌ c s) = if p (code c) then all_chars p s else false

-- A number in decimal, as `{}` prints it: its digits are fewer than the rounds.
unfoldable pub decimal_from : ℕ → ℕ → String
decimal_from zero n = ""
decimal_from (suc rounds) n =
    let front = decimal_from rounds (n / 10) in
    if ltb n 10
    then slice "0123456789" n (n + 1)
    else front ++ slice "0123456789" (n % 10) (n % 10 + 1)

unfoldable pub decimal : ℕ → String
unfolding decimal_from
decimal n = decimal_from (n + 1) n

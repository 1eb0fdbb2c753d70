-- ===== src/Compression/Text.antt =====
-- The normal forms and the token estimate of crates/surreal-memory/src/compression/text.rs.
use surreal_memory_server.Common.{
  ℕ, String, Bool, true, false, ◌||◌, ◌&&◌, ◌+◌, ◌/◌, List, [], ◌∷◌, ◌++◌, eqb, leb, keep,
  if◌then◌else◌,
}
use surreal_memory_server.Common.Text.{is_whitespace, is_blank, trim, count}
use surreal_memory_server.Common.Words.{split_whitespace, join, keep_chars, onto_first}
use surreal_memory_server.Compression.Contract.{Platform}
use Prim.Native.Char.{code}
use Prim.Native.String.{len}
use Prim.Native.String

-- `ceil(bytes / 4)`.
unfoldable pub estimate_tokens : String → ℕ
estimate_tokens text = (len text + 3) / 4

module _ (p : Platform) where
  unfoldable pub normalize : String → String
  unfolding split_whitespace join
  normalize text = join " " (split_whitespace (p.to_lowercase (p.nfc text)))

  -- Without punctuation: the key under which claims are equivalent.
  unfoldable pub canonical : String → String
  unfolding normalize keep_chars is_whitespace
  canonical text =
      join " " (
        split_whitespace
          (keep_chars (λ c. p.is_alphanumeric c || is_whitespace c) (normalize text)))

  unfoldable pub content_hash : String → String
  unfolding canonical
  content_hash text = p.sha256_hex (canonical text)

  unfoldable pub content_words : String → ℕ → List String
  unfolding canonical split_whitespace count
  content_words text min_len = keep (λ w. leb min_len (count w)) (split_whitespace (canonical text))

unfoldable pub begins_newline : String → Bool
begins_newline String.[] = false
begins_newline (String.◌∷◌ c s) = eqb (code c) 10

-- `text.lines()`: a line ends at a line feed, and a carriage return just before it is no part of it.
unfoldable pub lines : String → List String
unfolding begins_newline onto_first
lines String.[] = []
lines (String.◌∷◌ c s) =
    let rest = lines s in
    if eqb (code c) 10
    then "" ∷ rest
    else if eqb (code c) 13 && begins_newline s
    then rest
    else onto_first (String.◌∷◌ c String.[]) rest

unfoldable pub push_trimmed : List String → String → List String
unfolding trim is_blank
push_trimmed out current =
    let trimmed = trim current in if is_blank trimmed then out else out ++ trimmed ∷ []

abbrev pub is_terminator : ℕ → Bool
is_terminator c = eqb c 46 || eqb c 63 || eqb c 33

unfoldable pub ends_here : String → Bool
unfolding is_whitespace
ends_here String.[] = true
ends_here (String.◌∷◌ c s) = is_whitespace (code c)

-- The characters of one line.
unfoldable pub line_sentences : List String → String → String → List String
unfolding push_trimmed ends_here
line_sentences out current String.[] = push_trimmed out current
line_sentences out current (String.◌∷◌ c s) =
    let longer = String.◌++◌ current (String.◌∷◌ c String.[]) in
    let cut = line_sentences (push_trimmed out longer) "" s in
    let on = line_sentences out longer s in
    if is_terminator (code c) && ends_here s then cut else on

unfoldable pub sentences_of : List String → List String → List String
unfolding line_sentences
sentences_of out [] = out
sentences_of out (line ∷ rest) = sentences_of (line_sentences out "" line) rest

unfoldable pub sentences : String → List String
unfolding sentences_of lines
sentences text = sentences_of [] (lines text)

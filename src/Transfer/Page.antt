-- ===== src/Transfer/Page.antt =====
-- internal/app/api/team/public_page_type.go: the names and domains that a public page may have.
-- The texts come here trimmed, the name and the domain in lower case too. A domain with "://" has a
-- slash.
use mosona_manager.Prelude.{
  Bool, List, Option, [], bytes, false, if◌then◌else◌, leb, length, ltb, none, not, some, true, ℕ,
  ◌&&◌, ◌==◌, ◌||◌, ◌∷◌,
}

abbrev pub slash_or_other : List ℕ
slash_or_other = bytes "/?#@"

unfoldable pub contains_any : List ℕ → List ℕ → Bool
contains_any [] chars = false
contains_any (c ∷ cs) chars = is_one_of c chars || contains_any cs chars
  where
    is_one_of : ℕ → List ℕ → Bool
    is_one_of c [] = false
    is_one_of c (d ∷ ds) = c == d || is_one_of c ds

-- `strings.Split(s, ".")`
abbrev pub with_first : ℕ → List (List ℕ) → List (List ℕ)
with_first c [] = (c ∷ []) ∷ []
with_first c (l ∷ ls) = (c ∷ l) ∷ ls

unfoldable pub split_dots : List ℕ → List (List ℕ)
split_dots [] = [] ∷ []
split_dots (c ∷ cs) = let rest = split_dots cs in if c == b'.' then [] ∷ rest else with_first c rest

unfoldable pub is_host_char : ℕ → Bool
is_host_char c = (leb b'a' c && leb c b'z') || (leb b'0' c && leb c b'9') || c == b'-'

unfoldable pub all_host_chars : List ℕ → Bool
unfolding is_host_char
all_host_chars [] = true
all_host_chars (c ∷ cs) = is_host_char c && all_host_chars cs

abbrev pub last_is_hyphen : List ℕ → Bool
last_is_hyphen [] = false
last_is_hyphen (c ∷ []) = c == b'-'
last_is_hyphen (c ∷ d ∷ cs) = last_is_hyphen (d ∷ cs)

-- a label of a domain, and a name: neither begins nor ends with a hyphen
unfoldable pub is_label : List ℕ → Bool
unfolding all_host_chars
is_label [] = false
is_label (c ∷ cs) = not (c == b'-') && not (last_is_hyphen (c ∷ cs)) && all_host_chars (c ∷ cs)

unfoldable pub all_labels : List (List ℕ) → Bool
unfolding is_label
all_labels [] = true
all_labels (l ∷ ls) = is_label l && all_labels ls

abbrev pub is_empty : List ℕ → Bool
is_empty [] = true
is_empty (c ∷ cs) = false

-- `none` is an error, `some none` no value
unfoldable pub normalized_name : List ℕ → Option (Option (List ℕ))
unfolding is_label
normalized_name name =
    if is_empty name
    then some none
    else if ltb (length name) 3 || ltb 32 (length name)
    then none
    else if is_label name
    then some (some name)
    else none

unfoldable pub normalized_domain : List ℕ → Option (Option (List ℕ))
unfolding contains_any split_dots all_labels
normalized_domain domain =
    if is_empty domain
    then some none
    else if contains_any domain slash_or_other
    then none
    else if ltb 255 (length domain)
    then none
    else if all_labels (split_dots domain)
    then some (some domain)
    else none

unfoldable pub normalized_title : List ℕ → Option (Option (List ℕ))
normalized_title title =
    if is_empty title then some none else if ltb 255 (length title) then none else some (some title)

abbrev pub normalized_description : List ℕ → Option (List ℕ)
normalized_description text = if is_empty text then none else some text

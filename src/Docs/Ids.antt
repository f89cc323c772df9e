-- ===== src/Docs/Ids.antt =====
-- docs/search/search.js: `convertToId`, and when one id begins with another.
pub mod Prefix
pub mod Examples
use re_boot.Base.{
  ℕ, zero, suc, ◌+◌, ◌-◌, ◌/◌, ◌%◌, ltb, leb, if◌then◌else◌, Bool, ◌&&◌, ◌||◌, List, [], ◌∷◌, ◌++◌,
}

-- `cn.toString(16)`: at most four digits for a code unit.
unfoldable pub hex_digit : ℕ → ℕ
hex_digit n = if ltb n 10 then b'0' + n else b'a' + (n - 10)

unfoldable pub hex_string : ℕ → ℕ → List ℕ
unfolding hex_digit
hex_string zero n = []
hex_string (suc digits) n =
    let rest = hex_string digits (n / 16) in
    if ltb n 16 then hex_digit n ∷ [] else rest ++ hex_digit (n % 16) ∷ []

-- `/[a-z0-9\u0080-\uFFFF]/`
unfoldable pub is_kept : ℕ → Bool
is_kept c =
    (leb b'a' c && leb c b'z') || ((leb b'0' c && leb c b'9') || (leb 0x80 c && leb c 0xffff))

-- One round of the loop: what a character adds to the result.
unfoldable pub convert_char : ℕ → List ℕ
unfolding is_kept hex_string
convert_char c =
    if is_kept c
    then c ∷ []
    else if ltb c 16
    then b'_' ∷ b'0' ∷ hex_string 4 c
    else b'_' ∷ hex_string 4 c

unfoldable pub convert_to_id : List ℕ → List ℕ
unfolding convert_char
convert_to_id [] = []
convert_to_id (c ∷ search) = convert_char c ++ convert_to_id search

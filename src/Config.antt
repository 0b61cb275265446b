-- ===== src/Config.antt =====
-- conf.h and conf.cpp: a file of keys and values. What a path's file holds is a parameter, `none` where it cannot
-- be opened or read. The messages on stderr are left out.
pub mod Stored
pub mod Printed
pub mod RoundTrip
pub mod Includes
mod Tests
use ig_libs.Base.{
  ◌>>=◌, ℕ, zero, suc, ◌+◌, ℤ, Bool, true, false, ◌&&◌, ◌||◌, Option, none, some, List, [], ◌∷◌,
  length, ◌==◌, if◌then◌else◌,
}
use ig_libs.Text.{atoi, same_text}

-- `m_config_hash`: each key once.
abbrev pub ConfigHash : Type 0
ConfigHash = List (List ℕ × List ℕ)

pub record Config : Type 0 where
  pub m_config_hash : ConfigHash
  pub m_file_name : Option (List ℕ)

abbrev pub new_config : Config
new_config = record { m_config_hash = []; m_file_name = none }

unfoldable pub find : List ℕ → ConfigHash → Option (List ℕ)
find key [] = none
find key ((k, v) ∷ h) = if same_text k key then some v else find key h

-- `m_config_hash[key] = val`
unfoldable pub assign : List ℕ → List ℕ → ConfigHash → ConfigHash
assign key val [] = (key, val) ∷ []
assign key val ((k, v) ∷ h) = if same_text k key then (k, val) ∷ h else (k, v) ∷ assign key val h

abbrev pub assign_found : Bool → List ℕ → List ℕ → ConfigHash → Option (List ℕ) → ConfigHash
assign_found overwrite key val h none = assign key val h
assign_found overwrite key val h (some old) = if overwrite then assign key val h else h

-- A key that is there is written again only with `overwrite`.
pub store : Bool → List ℕ → List ℕ → ConfigHash → ConfigHash
store overwrite key val h = assign_found overwrite key val h (find key h)

-- A text that is not empty has a first line, and those behind it.
abbrev pub as_lines : List ℕ → List ℕ × List (List ℕ) → List (List ℕ)
as_lines [] cut = []
as_lines (c ∷ s) (line, behind) = line ∷ behind

-- The line that ends at `strchr(start, '\n')`, and those behind it; a NUL ends the line and the loop.
unfoldable pub cut : List ℕ → List ℕ × List (List ℕ)
cut [] = ([], [])
cut (c ∷ s) =
    let (line, behind) = cut s in
    if c == 0
    then ([], [])
    else (if c == 10 then ([], as_lines s (line, behind)) else (c ∷ line, behind))

-- The lines that the loop sees.
unfoldable pub text_lines : List ℕ → List (List ℕ)
text_lines s = as_lines s (cut s)

-- One of `"= \t"`.
abbrev pub is_delim : ℕ → Bool
is_delim c = c == 61 || c == 32 || c == 9

-- `strtok`: delimiters are passed over, and the token ends at the next one, which is taken off.
unfoldable pub skip_delims : List ℕ → List ℕ
skip_delims [] = []
skip_delims (c ∷ s) = let rest = skip_delims s in if is_delim c then rest else c ∷ s

unfoldable pub token : List ℕ → List ℕ × List ℕ
token [] = ([], [])
token (c ∷ s) = let (tok, rest) = token s in if is_delim c then ([], s) else (c ∷ tok, rest)

-- `none` where `strtok` returns NULL.
abbrev pub token_of : List ℕ → Option (List ℕ × List ℕ)
token_of [] = none
token_of (c ∷ s) = some (token (c ∷ s))

abbrev pub strtok : List ℕ → Option (List ℕ × List ℕ)
strtok s = token_of (skip_delims s)

unfoldable pub key_value : List ℕ → Option (List ℕ × List ℕ)
key_value line = do (key, rest) ← strtok line; (val, behind) ← strtok rest; some (key, val)

abbrev pub include_word : List ℕ
include_word = 105 ∷ 110 ∷ 99 ∷ 108 ∷ 117 ∷ 100 ∷ 101 ∷ []

abbrev pub is_comment : List ℕ → Bool
is_comment [] = false
is_comment (c ∷ s) = c == 35

-- A step's end: whether parsing goes on, and the table. `none` is a recursion too deep.
abbrev pub Parsed : Type 0
Parsed = Option (Bool × ConfigHash)

abbrev pub pair_read :
    (List ℕ → ConfigHash → Parsed) → Bool → ConfigHash → Option (List ℕ × List ℕ) → Parsed
unfolding store
pair_read include overwrite h none = some (true, h)
pair_read include overwrite h (some (key, val)) =
    if same_text include_word key then include val h else some (true, store overwrite key val h)

-- A line of a file. `include` is what `parse` does with an included file.
unfoldable pub add_line : (List ℕ → ConfigHash → Parsed) → Bool → List ℕ → ConfigHash → Parsed
add_line include overwrite line h =
    if is_comment line then some (true, h) else pair_read include overwrite h (key_value line)

unfoldable pub add_lines :
    (List ℕ → ConfigHash → Parsed) → Bool → List (List ℕ) → ConfigHash → Parsed
add_lines include overwrite [] h = some (true, h)
add_lines include overwrite (line ∷ lines) h = do
  (ok, h') ← add_line include overwrite line h
  if ok then add_lines include overwrite lines h' else some (false, h')

abbrev pub file_read : (List ℕ → ConfigHash → Parsed) → Bool → ConfigHash → Option (List ℕ) → Parsed
file_read include overwrite h none = some (false, h)
file_read include overwrite h (some bytes) = add_lines include overwrite (text_lines bytes) h

module _ (file : List ℕ → Option (List ℕ)) where
  -- `parse`, at most `depth` files deep.
  unfoldable pub parse : ℕ → Bool → List ℕ → ConfigHash → Parsed
  parse zero overwrite path h = none
  parse (suc depth) overwrite path h = file_read (parse depth overwrite) overwrite h (file path)

  abbrev pub parse_named : ℕ → Bool → Option (List ℕ) → ConfigHash → Parsed
  parse_named depth overwrite none h = some (false, h)
  parse_named depth overwrite (some path) h = parse depth overwrite path h

  -- The return value and the configuration. A name is `none` for NULL.
  pub load : ℕ → Config → Option (List ℕ) → Bool → Option (Bool × Config)
  load depth c name overwrite = do
    (ok, h) ← parse_named depth overwrite name []
    some (ok, record { m_config_hash = h; m_file_name = name })

  pub reload : ℕ → Config → Option (List ℕ) → Option (Bool × Config)
  reload depth c name = do
    (ok, h) ← parse_named depth true name c.m_config_hash
    some (ok, record { m_config_hash = h; m_file_name = name })

abbrev or_default : {A : Type 0} → A → (List ℕ → A) → Option (List ℕ) → A
or_default default_value read none = default_value
or_default default_value read (some val) = read val

-- `get` at an `int`, at a string, and at a `float`, whose `atof` is a parameter.
pub get_int : Config → List ℕ → ℤ → ℤ
get_int c key default_value = or_default default_value atoi (find key c.m_config_hash)

pub get_text : Config → List ℕ → List ℕ → List ℕ
get_text c key default_value = or_default default_value (λ val. val) (find key c.m_config_hash)

pub get_float : {F : Type 0} → (List ℕ → F) → Config → List ℕ → F → F
get_float atof c key default_value = or_default default_value atof (find key c.m_config_hash)

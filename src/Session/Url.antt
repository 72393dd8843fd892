-- ===== src/Session/Url.antt =====
-- src/Session.cpp: `parse_url`, the matches of `([\w+%]+)=([^&]*)` in the target of a request.
use cpp_burst_pool_node.Base.{ℕ, Bool, List, [], ◌∷◌, ◌++◌, ◌&&◌, ◌||◌, leb, ◌==◌, if◌then◌else◌}
use cpp_burst_pool_node.Base.Dict.{text_eq, insert}

abbrev pub Param : Type 0
Param = List ℕ × List ℕ

-- `[\w+%]`, in the C locale
unfoldable pub is_key_char : ℕ → Bool
is_key_char c =
    (leb 48 c && leb c 57)
    || ((leb 65 c && leb c 90)
        || ((leb 97 c && leb c 122) || ((c == 95) || ((c == 43) || (c == 37)))))

-- Where the matcher is: in a run of key characters, or in the value of a key.
pub data Mode : Type 0 where
  in_key : List ℕ → Mode
  in_value : List ℕ → List ℕ → Mode

-- An `=` after at least one key character starts a value.
unfoldable pub at_equals : List ℕ → Mode
at_equals [] = in_key []
at_equals (c ∷ key) = in_value (c ∷ key) []

unfoldable pub step_mode : Mode → ℕ → Mode
step_mode (in_key key) c =
    if c == 61 then at_equals key else (if is_key_char c then in_key (key ++ c ∷ []) else in_key [])
step_mode (in_value key value) c = if c == 38 then in_key [] else in_value key (value ++ c ∷ [])

-- A value ends at `&`.
unfoldable pub emitted : Mode → ℕ → List Param
emitted (in_key key) c = []
emitted (in_value key value) c = if c == 38 then (key, value) ∷ [] else []

unfoldable pub at_end : Mode → List Param
at_end (in_key key) = []
at_end (in_value key value) = (key, value) ∷ []

unfoldable pub matches : Mode → List ℕ → List Param
matches m [] = at_end m
matches m (c ∷ cs) = emitted m c ++ matches (step_mode m c) cs

-- A later value of the same key replaces the earlier one.
unfoldable pub collect : List Param → List Param → List Param
collect params [] = params
collect params ((key, value) ∷ rest) = collect (insert key value params) rest

unfoldable pub parse_url : List ℕ → List Param
parse_url query = collect [] (matches (in_key []) query)

-- ===== src/Session/UrlLaws.antt =====
-- src/Session.cpp: `parse_url` on the targets that clients write.
use mathlib.Core.List.{append_assoc, append-nil}
use cpp_burst_pool_node.Base.{
  ℕ, ◌≡◌, ◌≢◌, inl, inr, refl, ap, ◌∙◌, true, false, Option, none, some, List, [], ◌∷◌, ◌++◌, ◌==◌,
  if◌then◌else◌, All, Bool-cases, arith,
}
use cpp_burst_pool_node.Base.Dict.{text_eq, lookup, insert, lookup-insert}
use cpp_burst_pool_node.Session.Url.{
  Param, is_key_char, in_key, in_value, at_equals, step_mode, emitted, at_end, matches, collect,
  parse_url,
}

-- A key of at least one key character, and a value without `&`.
pub record IsParam (p : Param) : Type 0 where
  pub key_some : p.0 ≢ []
  pub key_chars : All (λ c. is_key_char c ≡ true) p.0
  pub value_chars : All (λ c. (c == 38) ≡ false) p.1

-- Each pair behind a separator, `&` from the second on.
unfoldable pub print : ℕ → List Param → List ℕ
print sep [] = []
print sep ((key, value) ∷ rest) = sep ∷ (key ++ 61 ∷ (value ++ print 38 rest))

-- The value of the last pair with a key.
abbrev pub last_value : List ℕ → List Param → Option (List ℕ) → Option (List ℕ)
last_value k [] found = found
last_value k ((key, value) ∷ rest) found =
    last_value k rest (if text_eq.beq key k then some value else found)

key_step :
    (c : ℕ) (acc : List ℕ)
    → is_key_char c ≡ true
    → step_mode (in_key acc) c ≡ in_key (acc ++ c ∷ [])
unfolding step_mode is_key_char
key_step c acc h = ground arith

matches-key :
    (key acc rest : List ℕ)
    → All (λ c. is_key_char c ≡ true) key
    → matches (in_key acc) (key ++ rest) ≡ matches (in_key (acc ++ key)) rest
unfolding matches emitted
matches-key [] acc rest h = rw (append-nil acc)
matches-key (c ∷ key) acc rest h = rw (key_step c acc h.0) (
    matches-key key (acc ++ c ∷ []) rest h.1
    ∙ ap (λ xs. matches (in_key xs) rest) (append_assoc acc (c ∷ []) key))

matches-equals :
    (key rest : List ℕ)
    → key ≢ []
    → matches (in_key key) (61 ∷ rest) ≡ matches (in_value key []) rest
unfolding matches step_mode at_equals emitted
matches-equals [] rest h = absurd (h refl)
matches-equals (c ∷ key) rest h = refl

matches-value :
    (key value acc rest : List ℕ)
    → All (λ c. (c == 38) ≡ false) value
    → matches (in_value key acc) (value ++ rest) ≡ matches (in_value key (acc ++ value)) rest
unfolding matches step_mode emitted
matches-value key [] acc rest h = rw (append-nil acc)
matches-value key (c ∷ value) acc rest h = rw h.0 (
    matches-value key value (acc ++ c ∷ []) rest h.1
    ∙ ap (λ xs. matches (in_value key xs) rest) (append_assoc acc (c ∷ []) value))

matches-pair :
    (p : Param) (rest : List ℕ)
    → IsParam p
    → matches (in_key []) (p.0 ++ 61 ∷ (p.1 ++ rest)) ≡ matches (in_value p.0 p.1) rest
matches-pair (key, value) rest v =
    matches-key key [] (61 ∷ (value ++ rest)) v.key_chars
    ∙ matches-equals key (value ++ rest) v.key_some
    ∙ matches-value key value [] rest v.value_chars

matches-print :
    (key value : List ℕ) (ps : List Param)
    → All IsParam ps
    → matches (in_value key value) (print 38 ps) ≡ (key, value) ∷ ps
unfolding matches print at_end emitted step_mode
matches-print key value [] h = refl
matches-print key value ((k, v) ∷ ps) h =
    ap (◌∷◌ (key, value)) (matches-pair (k, v) (print 38 ps) h.0 ∙ matches-print k v ps h.1)

-- A path has no `=`, so it holds no match.
path_step :
    (c : ℕ) (acc : List ℕ)
    → (c == 61) ≡ false
    → (acc' : List ℕ) × (step_mode (in_key acc) c ≡ in_key acc')
unfolding step_mode
path_step c acc h = elim (Bool-cases (is_key_char c)) [
  | inl e ↦ (acc ++ c ∷ [], rw (h, e))
  | inr e ↦ ([], rw (h, e))
]

question_step : (acc : List ℕ) → step_mode (in_key acc) 63 ≡ in_key []
unfolding step_mode is_key_char
question_step acc = refl

matches-path :
    (path acc : List ℕ) (ps : List Param)
    → All (λ c. (c == 61) ≡ false) path
    → All IsParam ps
    → matches (in_key acc) (path ++ print 63 ps) ≡ ps
unfolding matches print emitted at_end
matches-path [] acc [] h v = refl
matches-path [] acc ((k, x) ∷ ps) h v =
    rw (question_step acc) (matches-pair (k, x) (print 38 ps) v.0 ∙ matches-print k x ps v.1)
matches-path (c ∷ path) acc ps h v =
    let (acc', e) = path_step c acc h.0 in rw e (matches-path path acc' ps h.1 v)

lookup-collect :
    (k : List ℕ) (params ps : List Param)
    → lookup k (collect params ps) ≡ last_value k ps (lookup k params)
unfolding collect
lookup-collect k params [] = refl
lookup-collect k params ((key, value) ∷ ps) =
    lookup-collect k (insert key value params) ps
    ∙ ap (last_value k ps) (lookup-insert key k value params)

-- A path and the pairs of a query, written as clients do: each key has the value of its last pair,
-- and no other key has one.
pub lookup-parse_url :
    (path : List ℕ) (ps : List Param) (k : List ℕ)
    → All (λ c. (c == 61) ≡ false) path
    → All IsParam ps
    → lookup k (parse_url (path ++ print 63 ps)) ≡ last_value k ps none
unfolding parse_url lookup
lookup-parse_url path ps k h v =
    ap (λ xs. lookup k (collect [] xs)) (matches-path path [] ps h v) ∙ lookup-collect k [] ps

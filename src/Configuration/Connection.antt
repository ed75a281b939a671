-- ===== src/Configuration/Connection.antt =====
-- The connection string as its reader takes it apart: words between spaces.
use yeti_lnp_resolver.Base.{
  ◌≡◌, refl, ap, ◌∙◌, ℕ, zero, suc, ◌+◌, ◌/◌, ◌%◌, ◌<◌, ◌≤◌, ltb, inl, inr, Bool-cases, List, [],
  ◌∷◌, ◌++◌, Bytes, codes, ◌==◌, length, Lacks, if◌then◌else◌, arith,
}
use mathlib.Core.List.{append_assoc, append-nil}
use yeti_lnp_resolver.Base.Decimal.{to_string, digits_onto, IsDigits, to_string-IsDigits}
use yeti_lnp_resolver.Configuration.{DbCfg, get_conn_string}

abbrev pub word_if_any : Bytes → List Bytes
word_if_any [] = []
word_if_any (c ∷ cs) = (c ∷ cs) ∷ []

-- The words behind one that has begun; a word is not empty and has no space.
abbrev pub words_from : Bytes → Bytes → List Bytes
words_from word [] = word_if_any word
words_from word (c ∷ cs) =
    let ended = word_if_any word ++ words_from [] cs in
    let longer = words_from (word ++ (c ∷ [])) cs in if c == b' ' then ended else longer

abbrev pub words : Bytes → List Bytes
words s = words_from [] s

words_from-append :
    (word w rest : Bytes)
    → Lacks b' ' w
    → words_from word (w ++ (b' ' ∷ rest)) ≡ word_if_any (word ++ w) ++ words rest
words_from-append word [] rest h = rw (append-nil word) refl
words_from-append word (c ∷ cs) rest h = rw h.0 (
    words_from-append (word ++ (c ∷ [])) cs rest h.1
    ∙ ap (λ t. word_if_any t ++ words rest) (append_assoc word (c ∷ []) cs))

words_from_last : (word w : Bytes) → Lacks b' ' w → words_from word w ≡ word_if_any (word ++ w)
words_from_last word [] h = rw (append-nil word) refl
words_from_last word (c ∷ cs) h =
    rw h.0
      (words_from_last (word ++ (c ∷ [])) cs h.1 ∙ ap word_if_any (append_assoc word (c ∷ []) cs))

-- A value that can stand in the string without quotes.
abbrev pub IsWord : Bytes → Type 0
IsWord w = Lacks b' ' w × (0 < length w)

word_if_any-IsWord : (w : Bytes) → IsWord w → word_if_any w ≡ w ∷ []
word_if_any-IsWord [] h = absurd (omega (arith, h.1))
word_if_any-IsWord (c ∷ cs) h = refl

words-append : (w rest : Bytes) → IsWord w → words (w ++ (b' ' ∷ rest)) ≡ w ∷ words rest
words-append w rest h =
    words_from-append [] w rest h.0 ∙ ap (λ ws. ws ++ words rest) (word_if_any-IsWord w h)

IsDigits-Lacks : (s : Bytes) → IsDigits s → Lacks b' ' s
IsDigits-Lacks [] h = tt
IsDigits-Lacks (c ∷ cs) h = (ground arith, IsDigits-Lacks cs h.1)

length-digits_onto : (fuel n : ℕ) (rest : Bytes) → length rest ≤ length (digits_onto fuel n rest)
unfolding digits_onto
length-digits_onto zero n rest = omega arith
length-digits_onto (suc fuel) n rest = elim (Bool-cases (ltb n 10)) [
  | inl short ↦ rw short (omega arith)
  | inr long ↦ rw long (omega (arith, length-digits_onto fuel (n / 10) ((48 + n % 10) ∷ rest)))
]

to_string-IsWord : (n : ℕ) → IsWord (to_string n)
unfolding to_string digits_onto
to_string-IsWord n = (
  IsDigits-Lacks (to_string n) (to_string-IsDigits n),
  elim (Bool-cases (ltb n 10)) [
    | inl short ↦ rw short (omega arith)
    | inr long ↦ rw long (omega (arith, length-digits_onto n (n / 10) ((48 + n % 10) ∷ [])))
  ],
)

abbrev pub HasWords : DbCfg → Type 0
HasWords db = IsWord db.host × IsWord db.user × IsWord db.database × IsWord db.pass

-- The connection string, taken apart at its spaces, is what it was made of, key by key, if host,
-- user, database and password are not empty and have no space.
pub get_conn_string-words :
    (db : DbCfg)
    → HasWords db
    → words (get_conn_string db)
      ≡ codes "host"
        ∷ codes "="
        ∷ db.host
        ∷ codes "port"
        ∷ codes "="
        ∷ to_string db.port
        ∷ codes "user"
        ∷ codes "="
        ∷ db.user
        ∷ codes "dbname"
        ∷ codes "="
        ∷ db.database
        ∷ codes "password"
        ∷ codes "="
        ∷ db.pass
        ∷ codes "connect_timeout"
        ∷ codes "="
        ∷ to_string db.timeout
        ∷ []
unfolding get_conn_string
get_conn_string-words db h =
    let keyed : (Bytes → List Bytes → List Bytes) = λ key ws. key ∷ codes "=" ∷ ws in
    let last =
      words_from_last [] (to_string db.timeout) (to_string-IsWord db.timeout).0
      ∙ word_if_any-IsWord (to_string db.timeout) (to_string-IsWord db.timeout) in
    let pass =
      words-append db.pass _ h.3 ∙ ap (λ ws. db.pass ∷ keyed (codes "connect_timeout") ws) last in
    let database =
      words-append db.database _ h.2 ∙ ap (λ ws. db.database ∷ keyed (codes "password") ws) pass in
    let user =
      words-append db.user _ h.1 ∙ ap (λ ws. db.user ∷ keyed (codes "dbname") ws) database in
    let port =
      words-append (to_string db.port) _ (to_string-IsWord db.port)
      ∙ ap (λ ws. to_string db.port ∷ keyed (codes "user") ws) user in
    let host = words-append db.host _ h.0 ∙ ap (λ ws. db.host ∷ keyed (codes "port") ws) port in
    ap (keyed (codes "host")) host

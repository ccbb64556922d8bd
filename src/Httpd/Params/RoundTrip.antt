-- ===== src/Httpd/Params/RoundTrip.antt =====
-- The parameters that `httpd_parameter_parse` of esp8266/app/httpd.c finds in a URL.
use esp8266_xcode.Base.{
  ℕ, zero, suc, ◌≤◌, List, [], ◌∷◌, ◌++◌, none, some, Bool, true, ◌≡◌, ◌≢◌, refl, sym, ap, ap₂, ◌∙◌,
  length, length-append, All, All-append, arith, append-nil,
}
use esp8266_xcode.Lost.Text.{at_nul, c_str, strsep, strdup}
use esp8266_xcode.Lost.Text.Laws.{
  IsText, c_str-append-nul, strsep-append, strsep_last, strsep-nil, c_str_of_text,
}
use esp8266_xcode.Httpd.Params.{
  calls, separators, unescape, add_call, in_place, parse_loop, parse_round, parse_from,
  httpd_parameter_parse,
}
use esp8266_xcode.Httpd.Params.Escapes.{
  encode, encode_text, Quotes, IsByte, Free, unescape-zero, unescape-encode_text, encode_text-Free,
  length-encode_text, in_place_lem, in_place_last,
}

-- A round of the loop over a key, with what `strsep` leaves behind it.
loop_step :
    (f : ℕ) (token k t1 v t2 : List ℕ) (out : List ℕ)
    → strsep (some token) separators ≡ (some k, some t1)
    → strsep (some t1) separators ≡ (some v, some t2)
    → unescape v ≡ some out
    → parse_loop (suc f) token
      ≡ add_call (c_str k) (in_place v t2 out).0 (parse_loop f (in_place v t2 out).1)
unfolding parse_loop
loop_step f token k t1 v t2 out ek ev eu = rw (parse_loop, ek, ev, parse_round, eu)

loop_step_none :
    (f : ℕ) (token k t1 : List ℕ)
    → strsep (some token) separators ≡ (some k, some t1)
    → strsep (some t1) separators ≡ (none, some t1)
    → parse_loop (suc f) token ≡ add_call (c_str k) [] (parse_loop f t1)
unfolding parse_loop
loop_step_none f token k t1 ek ev = rw (parse_loop, ek, ev)

loop_end : (f : ℕ) (token : List ℕ) → at_nul token ≡ true → parse_loop (suc f) token ≡ calls []
unfolding parse_loop strsep
loop_end f token h = rw (parse_loop, h)

IsSeparator : ℕ → Type 0
IsSeparator c = (c ≢ 0) × (¬ (All (λ x. x ≢ c) (c_str separators)))

question-IsSeparator : IsSeparator b'?'
unfolding IsSeparator c_str
question-IsSeparator = (λ e. absurd (omega arith), λ h. h.0 refl)

equals-IsSeparator : IsSeparator b'='
unfolding IsSeparator c_str
equals-IsSeparator = (λ e. absurd (omega arith), λ h. h.1.0 refl)

ampersand-IsSeparator : IsSeparator b'&'
unfolding IsSeparator c_str
ampersand-IsSeparator = (λ e. absurd (omega arith), λ h. h.1.1.0 refl)

strsep_at :
    (t : List ℕ) (c : ℕ) (r : List ℕ)
    → IsSeparator c
    → All Free t
    → strsep (some (t ++ (c ∷ r))) separators ≡ (some (t ++ (0 ∷ r)), some r)
unfolding IsSeparator
strsep_at t c r s h = strsep-append t c r separators h s.0 s.1

Free-IsText : (t : List ℕ) → All Free t → IsText t
Free-IsText [] h = tt
Free-IsText (b ∷ t) h = (h.0.0, Free-IsText t h.1)

byte-IsText : (t : List ℕ) → All IsByte t → IsText t
byte-IsText [] h = tt
byte-IsText (b ∷ t) h = (λ e. absurd (omega arith), byte-IsText t h.1)

-- A parameter whose key the code keeps as it is, and whose value is escaped.
abbrev pub IsPair : List ℕ × List ℕ → Type 0
IsPair p = All Free p.0 × All IsByte p.1

unescape-nil : unescape [] ≡ some (0 ∷ [])
unfolding unescape
unescape-nil = refl

module _ (quote : ℕ → Bool) (quotes : Quotes quote) where
  -- A query as a form sends it.
  pub query : List (List ℕ × List ℕ) → List ℕ
  query [] = []
  query ((k, v) ∷ []) = k ++ (b'=' ∷ encode_text quote v)
  query ((k, v) ∷ p ∷ ps) = k ++ (b'=' ∷ (encode_text quote v ++ (b'&' ∷ query (p ∷ ps))))

  value_and_more :
      (f : ℕ) (k v r : List ℕ)
      → All Free k
      → All IsByte v
      → parse_loop (suc f) (k ++ (b'=' ∷ (encode_text quote v ++ (b'&' ∷ r))))
        ≡ add_call k v (parse_loop f r)
  value_and_more f k v r hk hv =
      let e = encode_text quote v in
      let m : unescape (e ++ (0 ∷ r)) ≡ some (v ++ (0 ∷ [])) =
        unescape-encode_text quote quotes v (0 ∷ r) hv (unescape-zero r) in
      loop_step f _ _ _ _ r (v ++ (0 ∷ [])) (strsep_at k b'=' _ equals-IsSeparator hk)
        (strsep_at e b'&' r ampersand-IsSeparator (encode_text-Free quote quotes v hv)) m
      ∙ rw (
        in_place_lem e v r (byte-IsText v hv) (length-encode_text quote quotes v),
        c_str-append-nul k (e ++ (b'&' ∷ r)) (Free-IsText k hk),
      )

  encode-ne-nil : (c : ℕ) (v : List ℕ) → encode_text quote (c ∷ v) ≢ []
  unfolding encode_text encode
  encode-ne-nil c v = ground arith

  value_and_end :
      (f : ℕ) (k v : List ℕ)
      → All Free k
      → All IsByte v
      → parse_loop (suc (suc f)) (k ++ (b'=' ∷ encode_text quote v)) ≡ calls ((k, v) ∷ [])
  unfolding encode_text
  value_and_end f k [] hk hv =
      loop_step_none (suc f) _ _ [] (strsep_at k b'=' [] equals-IsSeparator hk)
        (strsep-nil separators)
      ∙ rw (c_str-append-nul k [] (Free-IsText k hk), loop_end f [] refl)
  value_and_end f k (c ∷ v) hk hv =
      let e = encode_text quote (c ∷ v) in
      let m : unescape e ≡ some ((c ∷ v) ++ (0 ∷ [])) =
        ap unescape (sym (append-nil e))
        ∙ unescape-encode_text quote quotes (c ∷ v) [] hv unescape-nil in
      let (value, ended) =
        in_place_last e (c ∷ v) (byte-IsText (c ∷ v) hv)
          (length-encode_text quote quotes (c ∷ v)) in
      loop_step (suc f) _ _ _ _ [] ((c ∷ v) ++ (0 ∷ [])) (strsep_at k b'=' _ equals-IsSeparator hk)
        (strsep_last e separators (encode-ne-nil c v) (encode_text-Free quote quotes (c ∷ v) hv)) m
      ∙ ap₂ (λ a b. add_call a b (parse_loop (suc f) (in_place e [] ((c ∷ v) ++ (0 ∷ []))).1))
          (c_str-append-nul k e (Free-IsText k hk)) value
      ∙ ap (add_call k (c ∷ v)) (loop_end f _ ended)

  -- One round of the loop for each parameter.
  parse_loop-query :
      (ps : List (List ℕ × List ℕ)) (f : ℕ)
      → All IsPair ps
      → length ps ≤ f
      → parse_loop (suc f) (query ps) ≡ calls ps
  unfolding query
  parse_loop-query [] f h k = loop_end f [] refl
  parse_loop-query (p ∷ ps) zero h k = absurd (omega arith)
  parse_loop-query ((key, v) ∷ []) (suc f) h k = value_and_end f key v h.0.0 h.0.1
  parse_loop-query ((key, v) ∷ p ∷ ps) (suc f) h k =
      value_and_more (suc f) key v (query (p ∷ ps)) h.0.0 h.0.1
      ∙ ap (add_call key v) (parse_loop-query (p ∷ ps) f h.1 (omega arith))

  query-IsText : (ps : List (List ℕ × List ℕ)) → All IsPair ps → IsText (query ps)
  unfolding query
  query-IsText [] h = tt
  query-IsText ((key, v) ∷ []) h =
      All-append _ key _ (Free-IsText key h.0.0)
        (λ e. absurd (omega arith), Free-IsText _ (encode_text-Free quote quotes v h.0.1))
  query-IsText ((key, v) ∷ p ∷ ps) h = All-append _ key _ (Free-IsText key h.0.0) (
    λ e. absurd (omega arith),
    All-append _ (encode_text quote v) _ (Free-IsText _ (encode_text-Free quote quotes v h.0.1))
        (λ e. absurd (omega arith), query-IsText (p ∷ ps) h.1),
  )

  length-query : (ps : List (List ℕ × List ℕ)) → length ps ≤ length (query ps)
  unfolding query
  length-query [] = omega arith
  length-query ((key, v) ∷ []) = omega (arith, length-append key (b'=' ∷ encode_text quote v))
  length-query ((key, v) ∷ p ∷ ps) = omega (
    arith,
    length-append key (b'=' ∷ (encode_text quote v ++ (b'&' ∷ query (p ∷ ps)))),
    length-append (encode_text quote v) (b'&' ∷ query (p ∷ ps)),
    length-query (p ∷ ps),
  )

  -- For the URL of a form, whose path and keys hold no separator and whose values are escaped,
  -- the parser is called once for each parameter, in order, with its key and with its value as
  -- it was before the escapes.
  pub httpd_parameter_parse-query :
      (path : List ℕ) (ps : List (List ℕ × List ℕ))
      → All Free path
      → All IsPair ps
      → httpd_parameter_parse (path ++ (b'?' ∷ query ps)) ≡ calls ps
  unfolding httpd_parameter_parse strdup
  httpd_parameter_parse-query path ps h k =
      let url = path ++ (b'?' ∷ query ps) in
      let text : c_str url ≡ url =
        c_str_of_text url (
          All-append _ path _ (Free-IsText path h)
            (λ e. absurd (omega arith), query-IsText ps k)) in
      let cut : strsep (some (c_str url)) separators
          ≡ (some (path ++ (0 ∷ query ps)), some (query ps)) =
        rw text (strsep_at path b'?' _ question-IsSeparator h) in
      ap (parse_from (suc (length url))) cut
      ∙ parse_loop-query ps (length url) k
          (omega (arith, length-query ps, length-append path (b'?' ∷ query ps)))

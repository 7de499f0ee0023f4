-- ===== src/Http/Parser/Rounds.antt =====
-- The rounds of the loop of `ParseUrlAndParam`, on any text and on a query.
use co_socket.Prelude.{
  ℕ, zero, suc, ◌+◌, ◌≤◌, ◌<◌, ◌≡◌, ◌≢◌, refl, sym, ap, ◌∙◌, true, false, some, [], ◌∷◌, ◌++◌,
  append_assoc, append-nil, ltb, ◌==◌, Bytes, length, length-append, drop, drop-length, arith, All,
  lt→ltb, ltb→lt, ==_refl, Bool-cases, inl, inr,
}
use co_socket.Prelude.Text.{before}
use co_socket.Http.Table.{Table, assign, assign_all}
use co_socket.Http.Encoder.{query}
use co_socket.Http.Parser.{get_string_before, add_parameter, params_loop}

-- No byte of the text is `stop`.
abbrev pub Lacks : ℕ → Bytes → Type 0
Lacks stop text = All (λ b. (b == stop) ≡ false) text

pub before-append : (stop : ℕ) (xs ys : Bytes) → Lacks stop xs → before stop (xs ++ stop ∷ ys) ≡ xs
before-append stop [] ys h = rw (==_refl stop)
before-append stop (x ∷ xs) ys h = rw (h.0) (ap (◌∷◌ x) (before-append stop xs ys h.1))

pub before_all : (stop : ℕ) (xs : Bytes) → Lacks stop xs → before stop xs ≡ xs
before_all stop [] h = refl
before_all stop (x ∷ xs) h = rw (h.0) (ap (◌∷◌ x) (before_all stop xs h.1))

-- The loop ends within as many rounds as bytes are left.
pub params_loop_ends :
    (fuel : ℕ) (text : Bytes) (offset : ℕ) (m : Table)
    → 0 < fuel
    → length text < offset + fuel
    → (t : Table) × (params_loop fuel text offset m ≡ some t)
unfolding params_loop
params_loop_ends zero text offset m some_fuel enough = absurd (omega arith)
params_loop_ends (suc fuel) text offset m some_fuel enough =
    elim (Bool-cases (ltb offset (length text))) [
      | inr over ↦ (m, rw (over, params_loop))
      | inl more ↦
          let key = get_string_before b'=' text offset in
          let next = offset + length key + 1 in
          let left = ltb→lt offset (length text) more in
          elim (Bool-cases (ltb next (length text))) [
            | inl value_there ↦
                let value = get_string_before b'&' text next in
                let (t, ends) =
                  params_loop_ends fuel text (next + length value + 1) (add_parameter key value m)
                    (omega arith) (omega arith) in
                (t, rw (more, value_there, params_loop) ends)
            | inr cut ↦
                let (t, ends) =
                  params_loop_ends fuel text next (add_parameter key [] m) (omega arith)
                    (omega arith) in
                (t, rw (more, cut, params_loop) ends)
          ]
    ]

-- A parameter that the target carries unchanged.
abbrev pub IsPlain : Bytes × Bytes → Type 0
IsPlain (k, v) = (k ≢ []) × Lacks b'=' k × Lacks b'&' v

pub params_loop_done :
    (fuel : ℕ) (text : Bytes) (offset : ℕ) (m : Table)
    → length text ≤ offset
    → params_loop (suc fuel) text offset m ≡ some m
unfolding params_loop
params_loop_done fuel text offset m h =
    let over : ltb offset (length text) ≡ false = ground arith in rw (over, params_loop)

module _ (fuel : ℕ) (pre k tail text : Bytes) (m : Table) (e : text ≡ pre ++ (k ++ (b'=' ∷ tail)))
    (no_equals : Lacks b'=' k) where
  length-text : length text ≡ length pre + (length k + suc (length tail))
  length-text =
      ap length e
      ∙ omega (arith, length-append pre (k ++ (b'=' ∷ tail)), length-append k (b'=' ∷ tail))

  length-key : length (pre ++ (k ++ (b'=' ∷ []))) ≡ length pre + length k + 1
  length-key = omega (arith, length-append pre (k ++ (b'=' ∷ [])), length-append k (b'=' ∷ []))

  more : ltb (length pre) (length text) ≡ true
  more = lt→ltb _ _ (omega (arith, length-text))

  key_here : get_string_before b'=' text (length pre) ≡ k
  unfolding get_string_before
  key_here =
      ap (λ x. before b'=' (drop (length pre) x)) e
      ∙ ap (before b'=') (drop-length pre _)
      ∙ before-append b'=' k _ no_equals

  regrouped : (pre ++ (k ++ (b'=' ∷ []))) ++ tail ≡ pre ++ (k ++ (b'=' ∷ tail))
  regrouped =
      append_assoc pre (k ++ (b'=' ∷ [])) tail ∙ ap (◌++◌ pre) (append_assoc k (b'=' ∷ []) tail)

  tail_here : drop (length pre + length k + 1) text ≡ tail
  tail_here =
      ap (drop (length pre + length k + 1)) e
      ∙ ap (λ n. drop n (pre ++ (k ++ (b'=' ∷ tail)))) (sym length-key)
      ∙ ap (drop (length (pre ++ (k ++ (b'=' ∷ []))))) (sym regrouped)
      ∙ drop-length (pre ++ (k ++ (b'=' ∷ []))) tail

  -- One round with a value.
  params_loop_value :
      (v : Bytes)
      → before b'&' tail ≡ v
      → 0 < length tail
      → params_loop (suc fuel) text (length pre) m
        ≡ params_loop fuel text (length pre + length k + 1 + length v + 1) (add_parameter k v m)
  unfolding params_loop
  params_loop_value v h some_tail =
      let there : ltb (length pre + length k + 1) (length text) ≡ true =
        lt→ltb _ _ (omega (arith, length-text)) in
      let value : get_string_before b'&' text (length pre + length k + 1) ≡ v =
        unfold get_string_before in ap (before b'&') tail_here ∙ h in
      rw (more, key_here, there, key_here, value, params_loop)

  -- One round whose value is cut off at the end.
  params_loop_cut :
      tail ≡ []
      → params_loop (suc fuel) text (length pre) m
        ≡ params_loop fuel text (length pre + length k + 1) (add_parameter k [] m)
  unfolding params_loop
  params_loop_cut h =
      let cut : ltb (length pre + length k + 1) (length text) ≡ false =
        ground (arith, length-text, ap length h) in
      rw (more, key_here, cut, key_here, params_loop)

add_parameter_plain : (k v : Bytes) (m : Table) → k ≢ [] → add_parameter k v m ≡ assign k v m
unfolding add_parameter
add_parameter_plain [] v m h = absurd (h refl)
add_parameter_plain (k ∷ ks) v m h = refl

-- The text in front of the parameter behind this one.
abbrev past : Bytes → Bytes → Bytes → Bytes
past pre k v = pre ++ (k ++ (b'=' ∷ (v ++ (b'&' ∷ []))))

length-past : (pre k v : Bytes) → length (past pre k v) ≡ length pre + length k + 1 + length v + 1
length-past pre k v = omega (
  arith,
  length-append pre (k ++ (b'=' ∷ (v ++ (b'&' ∷ [])))),
  length-append k (b'=' ∷ (v ++ (b'&' ∷ []))),
  length-append v (b'&' ∷ []),
)

past-append :
    (pre k v more : Bytes) → pre ++ (k ++ (b'=' ∷ (v ++ (b'&' ∷ more)))) ≡ past pre k v ++ more
past-append pre k v more = sym (
    append_assoc pre (k ++ (b'=' ∷ (v ++ (b'&' ∷ [])))) more
    ∙ ap (◌++◌ pre) (
        append_assoc k (b'=' ∷ (v ++ (b'&' ∷ []))) more
        ∙ ap (λ x. k ++ (b'=' ∷ x)) (append_assoc v (b'&' ∷ []) more)))

-- The last parameter.
params_loop_last :
    (fuel : ℕ) (pre k v text : Bytes) (m : Table)
    → text ≡ pre ++ (k ++ (b'=' ∷ v))
    → IsPlain (k, v)
    → params_loop (suc (suc fuel)) text (length pre) m ≡ some (assign k v m)
params_loop_last fuel pre k [] text m e plain =
    params_loop_cut (suc fuel) pre k [] text m e plain.1 refl
    ∙ params_loop_done fuel text _ _
        (omega (arith, length-text (suc fuel) pre k [] text m e plain.1))
    ∙ ap some (add_parameter_plain k [] m plain.0)
params_loop_last fuel pre k (v ∷ vs) text m e plain =
    params_loop_value (suc fuel) pre k (v ∷ vs) text m e plain.1 (v ∷ vs)
      (before_all b'&' (v ∷ vs) plain.2) (omega arith)
    ∙ params_loop_done fuel text _ _
        (omega (arith, length-text (suc fuel) pre k (v ∷ vs) text m e plain.1))
    ∙ ap some (add_parameter_plain k (v ∷ vs) m plain.0)

-- The loop undoes the join of the parameters, from any place in the text.
pub params_loop-query :
    (fuel : ℕ) (pre k v : Bytes) (rest : Table) (text : Bytes) (m : Table)
    → text ≡ pre ++ (k ++ (b'=' ∷ (v ++ query false rest)))
    → IsPlain (k, v)
    → All IsPlain rest
    → length text < length pre + fuel
    → params_loop (suc fuel) text (length pre) m ≡ some (assign_all ((k, v) ∷ rest) m)
unfolding query assign_all
params_loop-query zero pre k v rest text m e plain others enough =
    absurd (omega (arith, length-text zero pre k (v ++ query false rest) text m e plain.1))
params_loop-query (suc fuel) pre k v [] text m e plain others enough =
    params_loop_last fuel pre k v text m (e ∙ rw (append-nil v)) plain
params_loop-query (suc fuel) pre k v ((k2, v2) ∷ rest) text m e plain others enough =
    let tail = v ++ query false ((k2, v2) ∷ rest) in
    params_loop_value (suc fuel) pre k tail text m e plain.1 v
      (before-append b'&' v (k2 ++ (b'=' ∷ (v2 ++ query false rest))) plain.2)
      (omega (arith, length-append v (query false ((k2, v2) ∷ rest))))
    ∙ ap (λ n. params_loop (suc fuel) text n (add_parameter k v m)) (sym (length-past pre k v))
    ∙ ap (params_loop (suc fuel) text (length (past pre k v))) (add_parameter_plain k v m plain.0)
    ∙ params_loop-query fuel (past pre k v) k2 v2 rest text (assign k v m)
        (e ∙ past-append pre k v _) others.0 others.1 (omega (arith, length-past pre k v))

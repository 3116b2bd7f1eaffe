-- ===== src/Cron/Bounds.antt =====
-- No field gives a value past its end.
use skifity.Prelude.{
  ltb, if◌then◌else◌, nat_eq, ◌==◌, All, All-append, ℕ, zero, suc, ◌≤◌, ◌≡◌, refl, Bool, true,
  false, ◌||◌, List, [], ◌∷◌, ◌++◌, arith,
}
use skifity.Prelude.Int.{ℤ, pos_part, leb_ℤ, ltb_ℤ, pos}
use skifity.Prelude.Text.{Text, text_eq, contains_byte, split, cut}
use skifity.Cron.Number.{atoi, add_int, range_loop, range_fuel, range_of}
use skifity.Cron.Schedule.{
  FieldError, Result, ◌>>=◌, or_error, parse_step, parse_range, parse_single, parse_base,
  parse_part, parse_parts, some_values, parse_field, not_a_number, out_of_range, ok, err,
}

abbrev pub Within : ℕ → ℤ → Type 0
Within high v = leb_ℤ v (pos high) ≡ true

-- What reading a field may answer.
abbrev pub Fits : ℕ → Result FieldError (List ℤ) → Type 0
Fits high (ok values) = All (Within high) values
Fits high (err _) = Unit {0}

bind-Fits {ℓ} :
    {A : Type ℓ} (high : ℕ) (r : Result FieldError A) (f : A → Result FieldError (List ℤ))
    → ((a : A) → Fits high (f a))
    → Fits high (r >>= f)
bind-Fits high (ok a) f h = h a
bind-Fits high (err e) f h = tt

loop_turn :
    (b : Bool) (v : ℤ) (high : ℕ) (rest : List ℤ)
    → leb_ℤ v (pos high) ≡ b
    → All (Within high) rest
    → All (Within high) (elim b [ true ↦ v ∷ rest | false ↦ [] ])
loop_turn true v high rest e h = (e, h)
loop_turn false v high rest e h = tt

range_loop-Within :
    (fuel : ℕ) (v : ℤ) (high step : ℕ) → All (Within high) (range_loop fuel v high step)
unfolding range_loop
range_loop-Within zero v high step = tt
range_loop-Within (suc fuel) v high step =
    loop_turn (leb_ℤ v (pos high)) v high (range_loop fuel (add_int v step) high step) refl
      (range_loop-Within fuel (add_int v step) high step)

range_of-Within : (v : ℤ) (high step : ℕ) → All (Within high) (range_of v high step)
unfolding range_of
range_of-Within v high step = range_loop-Within range_fuel v high step

wider-Within :
    (end high : ℕ) (values : List ℤ)
    → end ≤ high
    → All (Within end) values
    → All (Within high) values
wider-Within end high [] l h = tt
wider-Within end high (v ∷ values) l h =
    (ground (arith, l, h.0), wider-Within end high values l h.1)

range_choice-Fits :
    (b : Bool) (high step : ℕ) (start end : ℤ)
    → (b ≡ false → pos_part end ≤ high)
    → Fits high (if b then err out_of_range else ok (range_of start (pos_part end) step))
range_choice-Fits true high step start end h = tt
range_choice-Fits false high step start end h =
    wider-Within (pos_part end) high (range_of start (pos_part end) step) (h refl)
      (range_of-Within start (pos_part end) step)

parse_range-Fits :
    (low high step : ℕ) (start_text end_text : Text)
    → Fits high (parse_range low high step start_text end_text)
unfolding parse_range
parse_range-Fits low high step start_text end_text =
    let outside : ℤ → ℤ → Bool =
      λ start end. ltb_ℤ start (pos low) || (ltb_ℤ (pos high) end || ltb_ℤ end start) in
    let answer : ℤ → ℤ → Result FieldError (List ℤ) = λ start end.
      if outside start end then err out_of_range else ok (range_of start (pos_part end) step) in
    let end_read : Result FieldError ℤ = or_error (atoi end_text) not_a_number in
    bind-Fits high (or_error (atoi start_text) not_a_number) (λ start. end_read >>= answer start)
      (λ start.
        bind-Fits high end_read (answer start) (λ end.
          range_choice-Fits (outside start end) high step start end (λ e. ground (arith, e))))

single_choice-Fits :
    (b c : Bool) (high step : ℕ) (value : ℤ)
    → (b ≡ false → Within high value)
    → Fits high (
        if b
        then err out_of_range
        else if c
        then ok (range_of value high step)
        else ok (value ∷ []))
single_choice-Fits true c high step value h = tt
single_choice-Fits false true high step value h = range_of-Within value high step
single_choice-Fits false false high step value h = (h refl, tt)

parse_single-Fits : (low high step : ℕ) (part : Text) → Fits high (parse_single low high step part)
unfolding parse_single
parse_single-Fits low high step part =
    let outside : ℤ → Bool = λ value. ltb_ℤ value (pos low) || ltb_ℤ (pos high) value in
    let answer : ℤ → Result FieldError (List ℤ) = λ value.
      if outside value
      then err out_of_range
      else if ltb 1 step
      then ok (range_of value high step)
      else ok (value ∷ []) in
    bind-Fits high (or_error (atoi part) not_a_number) answer (λ value.
      single_choice-Fits (outside value) (ltb 1 step) high step value (λ e. ground (arith, e)))

either-Fits :
    (b : Bool) (high : ℕ) (r q : Result FieldError (List ℤ))
    → Fits high r
    → Fits high q
    → Fits high (if b then r else q)
either-Fits true high r q h k = h
either-Fits false high r q h k = k

parse_base-Fits : (low high step : ℕ) (part : Text) → Fits high (parse_base low high step part)
unfolding parse_base
parse_base-Fits low high step part =
    either-Fits (part == b'*' ∷ []) high _ _ (range_of-Within (pos low) high step) (
      either-Fits (contains_byte part b'-') high _ _
        (parse_range-Fits low high step (cut part b'-').0 (cut part b'-').1)
        (parse_single-Fits low high step part))

parse_part-Fits : (low high : ℕ) (part : Text) → Fits high (parse_part low high part)
unfolding parse_part
parse_part-Fits low high part =
    let (base, step_text, has_step) = cut part b'/' in
    either-Fits has_step high _ _
      (bind-Fits high (parse_step step_text) (λ step. parse_base low high step base)
        (λ step. parse_base-Fits low high step base))
      (parse_base-Fits low high 1 part)

-- What a bind is given may be assumed to fit.
bind_values-Fits :
    (high : ℕ) (r : Result FieldError (List ℤ)) (f : List ℤ → Result FieldError (List ℤ))
    → Fits high r
    → ((values : List ℤ) → All (Within high) values → Fits high (f values))
    → Fits high (r >>= f)
bind_values-Fits high (ok values) f h k = k values h
bind_values-Fits high (err e) f h k = tt

parse_parts-Fits :
    (low high : ℕ) (parts : List Text) (out : List ℤ)
    → All (Within high) out
    → Fits high (parse_parts low high parts out)
unfolding parse_parts
parse_parts-Fits low high [] out h = h
parse_parts-Fits low high (part ∷ parts) out h =
    bind_values-Fits high (parse_part low high part)
      (λ values. parse_parts low high parts (out ++ values)) (parse_part-Fits low high part)
      (λ values k.
        parse_parts-Fits low high parts (out ++ values) (All-append (Within high) out values h k))

some_values-Fits :
    (high : ℕ) (values : List ℤ) → All (Within high) values → Fits high (some_values values)
some_values-Fits high [] h = tt
some_values-Fits high (v ∷ vs) h = h

-- Whatever is written in a field, and also where the int of a step wraps, no value that the field
-- is read as lies past its end.
pub parse_field-Fits : (field : Text) (low high : ℕ) → Fits high (parse_field field low high)
unfolding parse_field
parse_field-Fits field low high =
    either-Fits (field == b'*' ∷ []) high _ _ (range_of-Within (pos low) high 1) (
      bind_values-Fits high (parse_parts low high (split field b',') []) some_values
        (parse_parts-Fits low high (split field b',') [] tt)
        (λ values h. some_values-Fits high values h))

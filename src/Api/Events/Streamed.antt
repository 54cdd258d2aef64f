-- ===== src/Api/Events/Streamed.antt =====
-- What a stream of events holds, and that it ends.
use odooctl.Prelude.{
  ℕ, zero, suc, ◌+◌, ◌<◌, ◌≤◌, String, ◌≡◌, ◌⊎◌, inl, inr, refl, sym, subst, ap, ◌∙◌, true, false,
  ◌||◌, List, [], ◌∷◌, ◌++◌, length, length-append, eqb, Bool-cases, arith, if_ind,
}
use mathlib.Core.List.{append_assoc}
use odooctl.Prelude.Exec.{Result, ok, err}
use odooctl.Prelude.Results.{ok-injective}
use odooctl.Operations.Models.{Operation, Event}
use odooctl.Operations.Store.{load, load_events}
use odooctl.Api.Params.{ApiError}
use odooctl.Api.Cancel.{Site, Found}
use odooctl.Api.Events.{
  clamp_max_polls, drop, is_terminal, Views, Streaming, polled, generate, find_scoped, followed,
  stream_events, max_polls_ceiling,
}

drop-append : {A : Type 0} (xs ys : List A) → drop (length xs) (xs ++ ys) ≡ ys
drop-append [] ys = refl
drop-append (x ∷ xs) ys = drop-append xs ys

pub clamp_max_polls-bounds :
    (value : ℕ) → (1 ≤ clamp_max_polls value) × (clamp_max_polls value ≤ max_polls_ceiling)
unfolding clamp_max_polls
clamp_max_polls-bounds value = ground arith

module _ {Params : Type 0} (repr : String → String) (op_id : String) (views : Views Params) where
  abbrev pub log : ℕ → List Event
  log n = load_events op_id (views n).0

  -- Events are appended only.
  abbrev pub Grows : Type 0
  Grows = (n : ℕ) → (new : List Event) × (log (suc n) ≡ log n ++ new)

  -- Why the stream ends with poll `m`: the record is gone, the operation has ended, or the polls
  -- have.
  abbrev pub Over : ℕ → ℕ → Type 0
  Over stop m =
      ((key : String) × (load op_id (views m).1 ≡ err key))
      ⊎ (((op : Operation Params) × (load op_id (views m).1 ≡ ok op)
            × (is_terminal op.status ≡ true))
          ⊎ (suc m ≡ stop))

  -- The events that were seen, with those that are sent, are the log as poll `m` reads it.
  abbrev pub Follows : List Event → ℕ → List Event → Type 0
  Follows prev stop out = (m : ℕ) × (m < stop) × (prev ++ out ≡ log m) × Over stop m

  -- What is read past the events that were seen.
  read :
      (n : ℕ) (prev new : List Event)
      → log n ≡ prev ++ new
      → prev ++ drop (length prev) (log n) ≡ log n
  read n prev new same =
      ap (λ es. prev ++ drop (length prev) es) same
      ∙ ap (λ es. prev ++ es) (drop-append prev new)
      ∙ sym same

  last :
      (left n : ℕ) (op : Operation Params)
      → load op_id (views n).1 ≡ ok op
      → (is_terminal op.status || eqb left 0) ≡ true
      → ((op : Operation Params) × (load op_id (views n).1 ≡ ok op)
          × (is_terminal op.status ≡ true))
        ⊎ (suc n ≡ n + suc left)
  last left n op there over = elim (Bool-cases (is_terminal op.status)) [
    | inl ended ↦ inl (op, there, ended)
    | inr lives ↦ inr (ground (arith, lives, over))
  ]

  onto :
      (prev new : List Event) (left n : ℕ) (op : Operation Params) (rest : Streaming)
      → prev ++ new ≡ log n
      → (is_terminal op.status || eqb left 0) ≡ false
      → (left ≡ 0) ⊎ Follows (log n) (n + suc left) rest.1
      → Follows prev (n + suc left) (new ++ rest.1)
  onto prev new left n op rest same on (inl none_left) = ground (arith, none_left, on)
  onto prev new left n op rest same on (inr (m, early, held, over)) =
      (m, early, sym (append_assoc prev new rest.1) ∙ ap (λ es. es ++ rest.1) same ∙ held, over)

  polled-Follows :
      (prev new : List Event) (left n : ℕ) (rest : Streaming) (r : Result String (Operation Params))
      → load op_id (views n).1 ≡ r
      → prev ++ new ≡ log n
      → ((left ≡ 0) ⊎ Follows (log n) (n + suc left) rest.1)
      → Follows prev (n + suc left) (polled repr new left rest r).1
  polled-Follows prev new left n rest (err key) gone same next =
      (n, omega arith, same, inl (key, gone))
  polled-Follows prev new left n rest (ok op) there same next =
      if_ind (λ (s : Streaming). Follows prev (n + suc left) s.1)
        (is_terminal op.status || eqb left 0) (ok tt, new) (rest.0, new ++ rest.1)
        (λ over. (n, omega arith, same, inr (last left n op there over)))
        (λ on. onto prev new left n op rest same on next)

  generate-Follows :
      (left n : ℕ) (prev new : List Event)
      → Grows
      → log n ≡ prev ++ new
      → Follows prev (n + suc left) (generate repr op_id views (suc left) n (length prev)).1
  unfolding generate
  generate-Follows zero n prev new grows same =
      polled-Follows prev (drop (length prev) (log n)) zero n _ (load op_id (views n).1) refl
        (read n prev new same) (inl refl)
  generate-Follows (suc left) n prev new grows same =
      let (later, more) = grows n in
      let got = drop (length prev) (log n) in
      polled-Follows prev got (suc left) n _ (load op_id (views n).1) refl (read n prev new same) (
        inr (
          subst
            (λ seen.
              Follows (log n) (n + suc (suc left))
                (generate repr op_id views (suc left) (suc n) seen).1)
            (sym (ap length (read n prev new same)) ∙ length-append prev got)
            (subst
              (λ stop.
                Follows (log n) stop
                  (generate repr op_id views (suc left) (suc n) (length (log n))).1)
              (omega arith) (generate-Follows left (suc n) (log n) later grows more))))

  generate_all-Follows :
      (polls : ℕ) → 1 ≤ polls → Grows → Follows [] polls (generate repr op_id views polls 0 0).1
  generate_all-Follows zero h grows = absurd (omega arith)
  generate_all-Follows (suc left) h grows =
      subst (λ stop. Follows [] stop (generate repr op_id views (suc left) 0 0).1) (omega arith)
        (generate-Follows left 0 [] (log 0) grows refl)

  followed-Follows :
      (max_polls : ℕ) (r : Result ApiError (Found Params)) (s : Streaming)
      → Grows
      → followed repr op_id max_polls views r ≡ ok s
      → Follows [] (clamp_max_polls max_polls) s.1
  followed-Follows max_polls (err e) s grows h = cc
  followed-Follows max_polls (ok f) s grows h =
      subst (λ (t : Streaming). Follows [] (clamp_max_polls max_polls) t.1) (ok-injective h)
        (generate_all-Follows (clamp_max_polls max_polls) (clamp_max_polls-bounds max_polls).0
          grows)

  -- A stream of an operation whose events are only ever appended ends: with a poll whose number is
  -- below the clamped count, and so below 600, because the record is gone, the operation has ended,
  -- or no poll is left. What was sent then is the log as that poll read it, each event once and in
  -- order; the poll reads the log before it asks whether the operation has ended.
  pub stream_events-Follows :
      (token_project : String) (max_polls : ℕ) (sites : List (Site Params)) (s : Streaming)
      → Grows
      → stream_events repr op_id token_project max_polls sites views ≡ ok s
      → Follows [] (clamp_max_polls max_polls) s.1 × (clamp_max_polls max_polls ≤ max_polls_ceiling)
  unfolding stream_events
  stream_events-Follows token_project max_polls sites s grows h = (
    followed-Follows max_polls (find_scoped repr op_id token_project sites) s grows h,
    (clamp_max_polls-bounds max_polls).1,
  )

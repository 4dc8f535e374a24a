-- ===== src/KvRaft/Loop.antt =====
-- How long the clerk's loop of src/kvraft/client.go runs, and which server it ends at.
use model_lib.KvRaft.{retry}
use model_lib.Prelude.{
  ℕ, zero, suc, ◌+◌, ◌-◌, ◌%◌, ◌≤◌, ◌<◌, ◌≡◌, sym, ap, subst, ap₂, ◌∙◌, ◌⊎◌, inl, inr, true, Option,
  none, some, arith, ltb, Option-cases,
}
use model_lib.Prelude.Go.{ok}
use native.Mathlib.Nat.{mod-lt, mod-eq_of_lt, mod-add-mod, add-mod-mod, add-mod_right}

module _ {R : Type 0} (servers : ℕ) (answer : ℕ → ℕ → Option R) where
  -- One attempt.
  retry_step :
      (fuel i server : ℕ)
      → server < servers
      → ((r : R) × (retry servers answer (suc fuel) i server ≡ some (ok (server, r)))
          × (answer i server ≡ some r))
        ⊎ ((answer i server ≡ none)
            × (retry servers answer (suc fuel) i server
                ≡ retry servers answer fuel (suc i) ((server + 1) % servers)))
  unfolding retry
  retry_step fuel i server inside =
      let test : ltb server servers ≡ true = ground arith in
      elim (Option-cases (answer i server)) [
        | inl none_yet ↦ inr (none_yet, rw (test, none_yet))
        | inr (r, found) ↦ inl (r, rw (test, found), found)
      ]

  next_inside : (server : ℕ) → server < servers → (server + 1) % servers < servers
  next_inside server inside = mod-lt (server + 1) (omega arith)

  -- The first attempt that is answered ends the loop, at the server whose turn it is.
  pub retry-first :
      (k fuel i server : ℕ) (r : R)
      → server < servers
      → k < fuel
      → ((j : ℕ) → j < k → answer (i + j) ((server + j) % servers) ≡ none)
      → answer (i + k) ((server + k) % servers) ≡ some r
      → retry servers answer fuel i server ≡ some (ok ((server + k) % servers, r))
  retry-first k zero i server r inside more silent found = absurd (omega arith)
  retry-first zero (suc fuel) i server r inside more silent found =
      let here : (server + 0) % servers ≡ server =
        ap (λ (n : ℕ). n % servers) (omega arith) ∙ mod-eq_of_lt inside in
      let now : i + 0 ≡ i = omega arith in
      let found' : answer i server ≡ some r = ap₂ answer (sym now) (sym here) ∙ found in
      elim (retry_step fuel i server inside) [
        | inl (r', run, is) ↦
            let same : r' ≡ r = cc in
            run ∙ ap₂ (λ (s : ℕ) (x : R). some (ok (s, x))) (sym here) same
        | inr (none_yet, _) ↦ cc
      ]
  retry-first (suc k) (suc fuel) i server r inside more silent found =
      let here : (server + 0) % servers ≡ server =
        ap (λ (n : ℕ). n % servers) (omega arith) ∙ mod-eq_of_lt inside in
      let now : i + 0 ≡ i = omega arith in
      let turn : (j : ℕ) → ((server + 1) % servers + j) % servers ≡ (server + suc j) % servers =
        λ j. mod-add-mod (server + 1) servers j ∙ ap (λ (n : ℕ). n % servers) (omega arith) in
      let later : (j : ℕ) → suc i + j ≡ i + suc j = λ j. omega arith in
      elim (retry_step fuel i server inside) [
        | inl (r', run, is) ↦
            let quiet : answer i server ≡ none =
              ap₂ answer (sym now) (sym here) ∙ silent 0 (omega arith) in
            cc
        | inr (_, run) ↦
            run
            ∙ retry-first k fuel (suc i) ((server + 1) % servers) r (next_inside server inside)
                (omega arith) (λ j lt. ap₂ answer (later j) (turn j) ∙ silent (suc j) (omega arith))
                (ap₂ answer (later k) (turn k) ∙ found)
            ∙ ap (λ (s : ℕ). some (ok (s, r))) (turn k)
      ]

  -- From attempt `t` on, server `s` always gives an answer that ends the loop.
  abbrev pub Responds : ℕ → ℕ → Type 0
  Responds t s = (i : ℕ) → t ≤ i → (r : R) × (answer i s ≡ some r)

  -- Server `s` is `d` turns away.
  retry_soon :
      (t s d fuel i server : ℕ)
      → Responds t s
      → server < servers
      → t ≤ i
      → (server + d) % servers ≡ s
      → d < fuel
      → (at : ℕ) × (r : R) × (retry servers answer fuel i server ≡ some (ok (at, r)))
  retry_soon t s d zero i server up inside late away more = absurd (omega arith)
  retry_soon t s zero (suc fuel) i server up inside late away more =
      elim (retry_step fuel i server inside) [
        | inl (r, run, _) ↦ (server, r, run)
        | inr (none_yet, _) ↦
            let here : server ≡ s =
              sym (ap (λ (n : ℕ). n % servers) (omega arith) ∙ mod-eq_of_lt inside) ∙ away in
            let (r, found) = up i late in
            let found' = subst (λ (x : ℕ). answer i x ≡ some r) (sym here) found in cc
      ]
  retry_soon t s (suc d) (suc fuel) i server up inside late away more =
      elim (retry_step fuel i server inside) [
        | inl (r, run, _) ↦ (server, r, run)
        | inr (_, run) ↦
            let (at, r, rest) =
              retry_soon t s d fuel (suc i) ((server + 1) % servers) up (next_inside server inside)
                (omega arith)
                (mod-add-mod (server + 1) servers d
                  ∙ ap (λ (n : ℕ). n % servers) (omega arith)
                  ∙ away)
                (omega arith) in
            (at, r, run ∙ rest)
      ]

  turns_away :
      (s server : ℕ)
      → s < servers
      → server < servers
      → (d : ℕ) × (d < servers) × ((server + d) % servers ≡ s)
  turns_away s server s_in inside =
      let gap : ℕ = s + (servers - server) in
      (
        gap % servers,
        mod-lt gap (omega arith),
        add-mod-mod server gap servers
            ∙ ap (λ (n : ℕ). n % servers) (omega arith)
            ∙ add-mod_right s servers
            ∙ mod-eq_of_lt s_in,
      )

  -- With t + servers attempts the loop ends.
  pub retry-returns :
      (t s fuel i server : ℕ)
      → Responds t s
      → s < servers
      → server < servers
      → i ≤ t
      → t + servers ≤ fuel + i
      → (at : ℕ) × (r : R) × (retry servers answer fuel i server ≡ some (ok (at, r)))
  retry-returns t s zero i server up s_in inside early enough = absurd (omega arith)
  retry-returns t s (suc fuel) i server up s_in inside early enough =
      let split : (i < t) ⊎ (i ≡ t) = omega arith in
      elim split [
        | inr now ↦
            let (d, lt, away) = turns_away s server s_in inside in
            retry_soon t s d (suc fuel) i server up inside (omega arith) away (omega arith)
        | inl sooner ↦ elim (retry_step fuel i server inside) [
          | inl (r, run, _) ↦ (server, r, run)
          | inr (_, run) ↦
              let (at, r, rest) =
                retry-returns t s fuel (suc i) ((server + 1) % servers) up s_in
                  (next_inside server inside) (omega arith) (omega arith) in
              (at, r, run ∙ rest)
        ]
      ]

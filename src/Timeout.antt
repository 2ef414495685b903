-- ===== src/Timeout.antt =====
-- src/timeout.rs: the deadline and the cancellation token of the thread's request, and the guards
-- that install and restore them. A token is an index of a flag, the flags are shared.
use kernel_lore_mcp.Base.{
  ◌∙◌, ◌↔◌, Bool-cases, ap, ltb→lt, ◌<◌, ℕ, ◌+◌, ◌-◌, ◌==◌, ◌^◌, ◌%◌, ◌≡◌, refl, Bool, true, ltb,
  if◌then◌else◌, arith, Option, none, some, inl, inr,
}
use mathlib.Core.Option.{some-injective}
use kernel_lore_mcp.Error.{ok, err, query_timeout, query_cancelled, Done, ◌>>◌}

pub record Deadline : Type 0 where
  pub started : ℕ
  pub limit_ms : ℕ

-- `as u64` of the milliseconds that passed; the clock is monotonic
abbrev pub elapsed_ms : ℕ → Deadline → ℕ
elapsed_ms now d = (now - d.started) % 2 ^ 64

unfoldable pub check : ℕ → Deadline → Done
check now d = if ltb d.limit_ms (elapsed_ms now d) then err (query_timeout d.limit_ms) else ok tt

-- The thread-local cells, the shared flags, and the time.
pub record Thread : Type 0 where
  pub deadline : Option Deadline
  pub token : Option ℕ
  pub is_cancelled : ℕ → Bool
  pub now : ℕ

unfoldable pub deadline_check : ℕ → Option Deadline → Done
deadline_check now none = ok tt
deadline_check now (some d) = check now d

unfoldable pub token_check : (ℕ → Bool) → Option ℕ → Done
token_check flags none = ok tt
token_check flags (some i) = if flags i then err query_cancelled else ok tt

unfoldable pub check_request_deadline : Thread → Done
check_request_deadline t = deadline_check t.now t.deadline >> token_check t.is_cancelled t.token

-- `DeadlineGuard::install` and `CancelGuard::install`, and their `drop`: the guard keeps what the
-- cell held
abbrev pub replace_deadline : Option Deadline → Thread → Option Deadline × Thread
replace_deadline d t = (t.deadline, record t { deadline = d })

abbrev pub replace_token : Option ℕ → Thread → Option ℕ × Thread
replace_token i t = (t.token, record t { token = i })

unfoldable pub cancel : ℕ → Thread → Thread
cancel i t = record t { is_cancelled = λ j. if j == i then true else t.is_cancelled j }

-- Code under guards: a block with its guard and what follows the block, a cancellation, time that
-- passes, and a check with the `?` operator.
pub data Code : Type 0 where
  end : Code
  with_limit : ℕ → Code → Code → Code
  with_deadline : Deadline → Code → Code → Code
  with_token : ℕ → Code → Code → Code
  cancel_token : ℕ → Code → Code
  wait : ℕ → Code → Code
  check_then : Code → Code

-- What follows a block runs only if the block did not return an error.
abbrev pub go_on : (Thread → Thread × Done) → Thread × Done → Thread × Done
go_on rest (t, ok a) = rest t
go_on rest (t, err e) = (t, err e)

-- A block under a guard, whose `drop` runs on every way out of the block.
unfoldable pub under_deadline :
    Deadline → (Thread → Thread × Done) → (Thread → Thread × Done) → Thread → Thread × Done
under_deadline d body rest t =
    let (prev, inside) = replace_deadline (some d) t in
    let (after, result) = body inside in go_on rest ((replace_deadline prev after).1, result)

unfoldable pub under_token :
    ℕ → (Thread → Thread × Done) → (Thread → Thread × Done) → Thread → Thread × Done
under_token i body rest t =
    let (prev, inside) = replace_token (some i) t in
    let (after, result) = body inside in go_on rest ((replace_token prev after).1, result)

unfoldable pub run : Code → Thread → Thread × Done
unfolding cancel
run end t = (t, ok tt)
run (with_limit ms body rest) t =
    under_deadline (record { started = t.now; limit_ms = ms }) (λ s. run body s) (λ s. run rest s) t
run (with_deadline d body rest) t = under_deadline d (λ s. run body s) (λ s. run rest s) t
run (with_token i body rest) t = under_token i (λ s. run body s) (λ s. run rest s) t
run (cancel_token i rest) t = run rest (cancel i t)
run (wait n rest) t = run rest (record t { now = t.now + n })
run (check_then rest) t = go_on (λ s. run rest s) (t, check_request_deadline t)

abbrev IsSame : Thread → Thread → Type 0
IsSame t u = (u.deadline ≡ t.deadline) × (u.token ≡ t.token)

abbrev Keeps : (Thread → Thread × Done) → Type 0
Keeps f = (t : Thread) → IsSame t ((f t).0)

go_on-IsSame :
    (rest : Thread → Thread × Done) (t u : Thread) (r : Done)
    → Keeps rest
    → IsSame t u
    → IsSame t ((go_on rest (u, r)).0)
go_on-IsSame rest t u (ok a) k s = ((k u).0 ∙ s.0, (k u).1 ∙ s.1)
go_on-IsSame rest t u (err e) k s = s

under_deadline-Keeps :
    (d : Deadline) (body rest : Thread → Thread × Done)
    → Keeps body
    → Keeps rest
    → Keeps (under_deadline d body rest)
unfolding under_deadline
under_deadline-Keeps d body rest b k t =
    let inside = (replace_deadline (some d) t).1 in
    let out = body inside in
    go_on-IsSame rest t ((replace_deadline t.deadline out.0).1) out.1 k (refl, (b inside).1)

under_token-Keeps :
    (i : ℕ) (body rest : Thread → Thread × Done)
    → Keeps body
    → Keeps rest
    → Keeps (under_token i body rest)
unfolding under_token
under_token-Keeps i body rest b k t =
    let inside = (replace_token (some i) t).1 in
    let out = body inside in
    go_on-IsSame rest t ((replace_token t.token out.0).1) out.1 k ((b inside).0, refl)

-- Code under guards leaves the thread's deadline and token as they were before it, also when a
-- check inside it fails and the code returns early.
pub run-IsSame : (c : Code) (t : Thread) → IsSame t ((run c t).0)
unfolding run cancel
run-IsSame end t = (refl, refl)
run-IsSame (with_limit ms body rest) t =
    under_deadline-Keeps (record { started = t.now; limit_ms = ms }) (λ s. run body s)
      (λ s. run rest s) (λ s. run-IsSame body s) (λ s. run-IsSame rest s) t
run-IsSame (with_deadline d body rest) t =
    under_deadline-Keeps d (λ s. run body s) (λ s. run rest s) (λ s. run-IsSame body s)
      (λ s. run-IsSame rest s) t
run-IsSame (with_token i body rest) t =
    under_token-Keeps i (λ s. run body s) (λ s. run rest s) (λ s. run-IsSame body s)
      (λ s. run-IsSame rest s) t
run-IsSame (cancel_token i rest) t = run-IsSame rest (cancel i t)
run-IsSame (wait n rest) t = run-IsSame rest (record t { now = t.now + n })
run-IsSame (check_then rest) t =
    go_on-IsSame (λ s. run rest s) t t (check_request_deadline t) (λ s. run-IsSame rest s)
      (refl, refl)

-- A deadline is installed, and more milliseconds have passed than its limit.
abbrev pub IsExpired : ℕ → Option Deadline → Type 0
IsExpired now o = (d : Deadline) × (o ≡ some d) × (d.limit_ms < elapsed_ms now d)

-- A token is installed, and its flag is set.
abbrev pub IsCancelled : (ℕ → Bool) → Option ℕ → Type 0
IsCancelled flags o = (i : ℕ) × (o ≡ some i) × (flags i ≡ true)

deadline_check_iff :
    (now : ℕ) (o : Option Deadline) → (deadline_check now o ≡ ok tt) ↔ (¬ IsExpired now o)
unfolding deadline_check check
deadline_check_iff now none = (λ h (d, e, x). absurd (cc), λ n. refl)
deadline_check_iff now (some d) = (
  λ h (c, e, x). absurd (passed h (rw (some-injective d c e) x)),
  λ n. elim (Bool-cases (ltb d.limit_ms (elapsed_ms now d))) [
    | inl e ↦ absurd (n (d, refl, ltb→lt d.limit_ms (elapsed_ms now d) e))
    | inr e ↦ rw e refl
  ],
)
  where
    passed :
        ◌≡◌ {A = Done}
          (if ltb d.limit_ms (elapsed_ms now d) then err (query_timeout d.limit_ms) else ok tt)
          (ok tt)
        → d.limit_ms < elapsed_ms now d
        → ⊥
    passed h x = ground arith

token_check_iff :
    (flags : ℕ → Bool) (o : Option ℕ) → (token_check flags o ≡ ok tt) ↔ (¬ IsCancelled flags o)
unfolding token_check
token_check_iff flags none = (λ h (i, e, x). absurd (cc), λ n. refl)
token_check_iff flags (some i) = (
  λ h (j, e, x).
      absurd (let y : flags i ≡ true = ap flags (some-injective i j e) ∙ x in clash (rw y at h)),
  λ n. elim (Bool-cases (flags i)) [ inl e ↦ absurd (n (i, refl, e)) | inr e ↦ rw e refl ],
)
  where
    clash : ◌≡◌ {A = Done} (err query_cancelled) (ok tt) → ⊥
    clash h = cc

both_pass : (a b : Done) → ((a >> b) ≡ ok tt) ↔ ((a ≡ ok tt) × (b ≡ ok tt))
both_pass (ok u) b = (λ h. (refl, h), λ (_, h). h)
both_pass (err e) b = (λ h. absurd (cc), λ (h, _). absurd (cc))

-- The check of the request passes exactly if no installed deadline is over and no installed token
-- is cancelled.
pub check_request_deadline_iff :
    (t : Thread)
    → (check_request_deadline t ≡ ok tt)
      ↔ ((¬ IsExpired t.now t.deadline) × (¬ IsCancelled t.is_cancelled t.token))
unfolding check_request_deadline
check_request_deadline_iff t =
    let (d, d') = deadline_check_iff t.now t.deadline in
    let (c, c') = token_check_iff t.is_cancelled t.token in
    let (p, p') =
      both_pass (deadline_check t.now t.deadline) (token_check t.is_cancelled t.token) in
    (λ h. let (a, b) = p h in (d a, c b), λ (n, m). p' (d' n, c' m))

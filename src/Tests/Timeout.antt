-- ===== src/Tests/Timeout.antt =====
-- src/timeout.rs on nested guards.
use kernel_lore_mcp.Base.{◌≡◌, refl, false, none}
use kernel_lore_mcp.Error.{err, query_timeout, query_cancelled}
use kernel_lore_mcp.Timeout.{
  Thread, Code, end, with_limit, with_token, cancel_token, wait, check_then, run, under_deadline,
  under_token, cancel, check, deadline_check, token_check, check_request_deadline, run-IsSame,
}

abbrev idle : Thread
idle = record { deadline = none; token = none; is_cancelled = λ i. false; now = 0 }

-- a token inside a deadline; the token is cancelled and then checked
abbrev cancelled_inside : Code
cancelled_inside =
    with_limit 5 (with_token 7 (wait 3 (cancel_token 7 (check_then end))) end) (check_then end)

cancelled_returns : (run cancelled_inside idle).1 ≡ err query_cancelled
unfolding run under_deadline under_token cancel check deadline_check token_check
    check_request_deadline
cancelled_returns = refl

slow_returns : (run (with_limit 5 (wait 6 (check_then end)) end) idle).1 ≡ err (query_timeout 5)
unfolding run under_deadline under_token cancel check deadline_check token_check
    check_request_deadline
slow_returns = refl

run-IsSame_example :
    ((run cancelled_inside idle).0.deadline ≡ none) × ((run cancelled_inside idle).0.token ≡ none)
run-IsSame_example = run-IsSame cancelled_inside idle

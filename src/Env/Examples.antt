-- ===== src/Env/Examples.antt =====
-- The theorems about the shared data at concrete inputs.
use xx_url.Common.{ℕ, suc, ◌≡◌, ◌≤◌, refl, ok}
use xx_url.Env.{EnvLib, Data, create_thread_local_data, get_global_data, set_local}
use xx_url.Env.Shared.{System, Reach, here, next, pick, miss, fetch, keep, get_data-once}

-- The values are numbered by the world, so that a second creation would give other ones.
abbrev numbered : EnvLib ℕ ℕ ℕ ℕ
numbered = record {
  join = λ w. (ok (ok w, ok (suc w)), suc (suc w));
  client_config = λ certs w. (ok certs, w);
}

abbrev made : Data ℕ ℕ
made = record { dns_resolver = 1; tls_client_config = 0 }

-- Call 0 on thread 0 begins, call 1 on thread 1 begins and makes the data, and both end.
unfoldable two_calls : (s : System ℕ ℕ ℕ) × Reach numbered (λ i. i) 0 s
unfolding create_thread_local_data get_global_data set_local
two_calls = (
  _,
  next
      (next
        (next
          (next (next (next here (pick 0 (miss refl))) (pick 1 (miss refl)))
            (pick 1 (fetch made _ refl)))
          (pick 0 (fetch made _ refl)))
        (pick 0 (keep made)))
      (pick 1 (keep made)),
)

get_data-once_example : (made ≡ made) × (two_calls.0.env.created ≤ 1)
unfolding two_calls create_thread_local_data get_global_data set_local
get_data-once_example = get_data-once numbered two_calls.0 0 1 made made two_calls.1 refl refl

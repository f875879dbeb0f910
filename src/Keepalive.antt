-- ===== src/Keepalive.antt =====
-- src/keepalive.c: the KEEPALIVE message, which has no body.
use libbgp.Prelude.{ℕ, List, [], length, ◌==◌}
use libbgp.Prelude.Errors.{Result, ok, bad_len, guard, ◌>>◌}

-- The bytes consumed.
unfoldable pub keepalive_parse : List ℕ → Result ℕ
keepalive_parse buf = do guard (length buf == 0) bad_len; ok 0

unfoldable pub keepalive_write : ℕ → Result (List ℕ)
keepalive_write cap = ok []

-- ===== src/Notification.antt =====
-- src/notification.c: NOTIFICATION messages. `data` with `data_len` is the list of the bytes.
use libbgp.Prelude.{
  ℕ, suc, ◌+◌, ◌-◌, ◌≤◌, ◌≡◌, ◌⊎◌, inl, inr, List, [], ◌∷◌, arith, leb, length, get_or, drop,
  le→leb,
}
use libbgp.Prelude.Growth.{size_max}
use libbgp.Prelude.Errors
use libbgp.Prelude.Errors.{Result, ok, err, bad_len, buffer, guard, nomem, Mem}
use libbgp.Prelude.Alloc.{
  Alloc, ◌>>◌, give, require, malloc_bytes, malloc_bytes-ok, malloc_bytes-cases,
}

pub record NotificationMsg : Type 0 where
  pub err_code : ℕ
  pub err_subcode : ℕ
  pub notification_data : List ℕ

unfoldable pub notification_init : NotificationMsg
notification_init = record { err_code = 0; err_subcode = 0; notification_data = [] }

unfoldable pub notification_destroy : NotificationMsg → NotificationMsg
notification_destroy msg = record msg { err_code = 0; err_subcode = 0; notification_data = [] }

-- The message that is read and the bytes consumed, which are all of them.
unfoldable pub notification_parse : List ℕ → Alloc (NotificationMsg × ℕ)
notification_parse buf = do
  require (leb 2 (length buf)) bad_len
  let copied = drop 2 buf
  malloc_bytes (length copied)
  give (
    record { err_code = get_or buf 0 0; err_subcode = get_or buf 1 0; notification_data = copied },
    length buf,
  )

unfoldable pub notification_write : NotificationMsg → ℕ → Result (List ℕ)
notification_write msg cap =
    Errors.◌>>◌ (guard (leb (length msg.notification_data) (size_max - 2)) bad_len) (
      Errors.◌>>◌ (guard (leb (2 + length msg.notification_data) cap) buffer)
        (ok (msg.err_code ∷ msg.err_subcode ∷ msg.notification_data)))

-- What the bytes of a message parse to, and what happens if the allocator fails.
parse_form :
    (code sub : ℕ) (bytes : List ℕ) (m : Mem)
    → let r = notification_parse (code ∷ sub ∷ bytes) in
      let msg : NotificationMsg = record {
        err_code = code;
        err_subcode = sub;
        notification_data = bytes;
      } in
      ((r []).0 ≡ ok (msg, suc (suc (length bytes))))
      × (((r m).0 ≡ ok (msg, suc (suc (length bytes)))) ⊎ ((r m).0 ≡ err nomem))
unfolding notification_parse
parse_form code sub bytes m = (
  rw (le→leb 2 (suc (suc (length bytes))) (omega arith), malloc_bytes-ok (length bytes)),
  elim (malloc_bytes-cases (length bytes) m) [
    | inl e ↦ inl (rw (le→leb 2 (suc (suc (length bytes))) (omega arith), e))
    | inr e ↦ inr (rw (le→leb 2 (suc (suc (length bytes))) (omega arith), e))
  ],
)

-- A message whose data is shorter than the largest size is written into any buffer with room for two
-- bytes and the data, and exactly those are written; parsing them yields the message and consumes all
-- if the allocator does not fail, and otherwise yields the same or answers NOMEM.
pub notification_parse-write :
    (msg : NotificationMsg) (cap : ℕ) (m : Mem)
    → length msg.notification_data ≤ size_max - 2
    → 2 + length msg.notification_data ≤ cap
    → (out : List ℕ) × (notification_write msg cap ≡ ok out)
      × (length out ≡ 2 + length msg.notification_data)
      × ((notification_parse out []).0 ≡ ok (msg, length out))
      × (((notification_parse out m).0 ≡ ok (msg, length out))
          ⊎ ((notification_parse out m).0 ≡ err nomem))
unfolding notification_write
notification_parse-write msg cap m fits room = (
  msg.err_code ∷ msg.err_subcode ∷ msg.notification_data,
  ground arith,
  omega arith,
  form.0,
  form.1,
)
  where
    form :
        let r = notification_parse (msg.err_code ∷ msg.err_subcode ∷ msg.notification_data) in
        let n = suc (suc (length msg.notification_data)) in
        ((r []).0 ≡ ok (msg, n)) × (((r m).0 ≡ ok (msg, n)) ⊎ ((r m).0 ≡ err nomem))
    form = parse_form msg.err_code msg.err_subcode msg.notification_data m

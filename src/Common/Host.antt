-- ===== src/Common/Host.antt =====
-- `parse_host` of common.cpp.
use gnyproxy.Prelude.{
  ℕ, ◌≡◌, refl, [], ◌∷◌, ◌++◌, none, some, ==_iff, Bytes, Free, length, take-append,
  drop-append_cons,
}
use gnyproxy.Common.{find_last_of, parse_host}

find_last_of-Free : (c : ℕ) (s : Bytes) → Free c s → find_last_of c s ≡ none
unfolding find_last_of
find_last_of-Free c [] h = refl
find_last_of-Free c (x ∷ s) h = rw (find_last_of-Free c s h.1, find_last_of, h.0)

find_last_of-append :
    (c : ℕ) (s t : Bytes) → Free c t → find_last_of c (s ++ c ∷ t) ≡ some (length s)
unfolding find_last_of
find_last_of-append c [] t h = rw (find_last_of-Free c t h, find_last_of, (==_iff c c).1 refl)
find_last_of-append c (x ∷ s) t h = rw (find_last_of-append c s t h, find_last_of)

-- Where no colon stands in the port, it is what follows the last colon, and the host all before it;
-- a string with no colon is a host, and the port is 80.
pub parse_host_lem :
    (host port : Bytes)
    → Free b':' port
    → (parse_host (host ++ b':' ∷ port) ≡ (host, port))
      × (parse_host port ≡ (port, b'8' ∷ b'0' ∷ []))
unfolding parse_host
parse_host_lem host port h = (
  rw (find_last_of-append b':' host port h, parse_host, take-append, drop-append_cons),
  rw (find_last_of-Free b':' port h, parse_host),
)

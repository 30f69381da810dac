-- ===== src/SubmitQueue/Address.antt =====
-- src/render_submit_queue.c, `make_connection`: where it connects to.
use mathlib.Core.List.{append-nil}
use mod_tile.Base.{
  subst, ℕ, ◌<◌, ◌≡◌, ◌≢◌, refl, ap, ℤ, pos, residue, Bool, true, false, List, [], ◌∷◌, ◌++◌, take,
  Option, none, some, arith, ◌==◌, if◌then◌else◌,
}
use mod_tile.TilePath.{decimal}
use mod_tile.TilePath.Scan.{scan_int}
use mod_tile.TilePath.Decimal.{scan_int-decimal}

pub data Target : Type 0 where
  unix_socket : List ℕ → Target
  network : List ℕ → ℕ → Target

-- "localhost"
abbrev pub renderd_host : List ℕ
renderd_host = b'l' ∷ b'o' ∷ b'c' ∷ b'a' ∷ b'l' ∷ b'h' ∷ b'o' ∷ b's' ∷ b't' ∷ []

abbrev pub renderd_port : ℕ
renderd_port = 7654

-- The bytes that `sun_path`, which has 108 on Linux, has room for before its terminating zero
abbrev pub sun_path_max : ℕ
sun_path_max = 107

-- The bytes before the first colon, and those behind it if there is one
unfoldable pub split_colon : List ℕ → List ℕ × Option (List ℕ)
split_colon [] = ([], none)
split_colon (c ∷ s) =
    let rest = split_colon s in if c == b':' then ([], some s) else (c ∷ rest.0, rest.1)

-- `atoi`
unfoldable pub atoi : List ℕ → ℤ
atoi s = elim (scan_int s) [ none ↦ pos 0 | some (n, rest) ↦ n ]

unfoldable pub host_of : List ℕ → List ℕ
host_of [] = renderd_host
host_of (c ∷ s) = c ∷ s

unfoldable pub port_of : Option (List ℕ) → ℕ
unfolding atoi
port_of none = renderd_port
port_of (some s) = if residue (atoi s) 65536 == 0 then renderd_port else residue (atoi s) 65536

unfoldable pub network_target : List ℕ → Target
unfolding split_colon host_of port_of
network_target spath = let (host, port) = split_colon spath in network (host_of host) (port_of port)

-- The address that `make_connection` connects to
unfoldable pub connection_target : List ℕ → Target
unfolding network_target
connection_target [] = network_target []
connection_target (c ∷ s) =
    if c == b'/' then unix_socket (take sun_path_max (c ∷ s)) else network_target (c ∷ s)

abbrev pub has_colon : List ℕ → Bool
has_colon [] = false
has_colon (c ∷ s) = if c == b':' then true else has_colon s

split_colon-append :
    (host s : List ℕ) → has_colon host ≡ false → split_colon (host ++ b':' ∷ s) ≡ (host, some s)
unfolding split_colon
split_colon-append [] s h = refl
split_colon-append (c ∷ host) s h =
    let n : (c == b':') ≡ false = ground arith in
    rw n (
      ap (λ (r : List ℕ × Option (List ℕ)). (c ∷ r.0, r.1)) (split_colon-append host s (rw n at h)))

atoi-decimal : (n : ℕ) → atoi (decimal n) ≡ pos n
unfolding atoi
atoi-decimal n =
    let e : scan_int (decimal n) ≡ some (pos n, []) =
      subst (λ l. scan_int l ≡ some (pos n, [])) (append-nil (decimal n))
        (scan_int-decimal n [] refl) in
    rw (e, atoi) refl

port_of-decimal : (n : ℕ) → 0 < n → n < 65536 → port_of (some (decimal n)) ≡ n
unfolding port_of
port_of-decimal n h k = rw (atoi-decimal n) (ground arith)

-- For a host without a colon that does not begin with a slash, and a port from 1 to 65535: the tools
-- connect to that host and port when they are given the host, a colon and the port in decimal; where
-- the host is empty they take the default host.
pub connection_target-decimal :
    (host : List ℕ) (port : ℕ)
    → has_colon host ≡ false
    → take 1 host ≢ b'/' ∷ []
    → 0 < port
    → port < 65536
    → connection_target (host ++ b':' ∷ decimal port) ≡ network (host_of host) port
unfolding connection_target network_target
connection_target-decimal [] port n m h k = ap (network renderd_host) (port_of-decimal port h k)
connection_target-decimal (c ∷ host) port n m h k =
    let slash : (c == b'/') ≡ false = ground (arith, λ (e : c ≡ b'/'). m (ap (λ x. x ∷ []) e)) in
    rw (slash, split_colon-append (c ∷ host) (decimal port) n)
      (ap (network (c ∷ host)) (port_of-decimal port h k))

-- ===== src/ProtocolHelper/Transfer.antt =====
-- src/protocol_helper.c: what is sent is received.
use mod_tile.Base.{
  ℕ, zero, suc, ◌-◌, ◌≤◌, ◌<◌, ◌≡◌, refl, sym, ◌∙◌, ap, ℤ, pos, ltb_ℤ, eq_ℤ, true, false, ◌⊎◌, inl,
  inr, List, [], ◌∷◌, ◌++◌, some, arith, length, take, drop, take_all, ltb, if◌then◌else◌,
  length-take, length-drop, take++drop,
}
use mod_tile.StoreFile.{get32}
use mod_tile.RequestTile.{size_v3}
use mod_tile.ProtocolHelper.{
  size_v1, ver, unknown_version, expected_len, send_cmd, Recv, recvs, recv, zero_filled, whole,
  second_read, read_rest, first_read, recv_cmd,
}

-- The first 20 bytes hold the version.
ver-take : (n : ℕ) (memory : List ℕ) → 4 ≤ n → 4 ≤ length memory → ver (take n memory) ≡ ver memory
unfolding get32
ver-take n [] h k = absurd (omega arith)
ver-take n (a ∷ []) h k = absurd (omega arith)
ver-take n (a ∷ b ∷ []) h k = absurd (omega arith)
ver-take n (a ∷ b ∷ c ∷ []) h k = absurd (omega arith)
ver-take (suc (suc (suc (suc n)))) (a ∷ b ∷ c ∷ d ∷ bytes) h k = refl
ver-take zero (a ∷ b ∷ c ∷ d ∷ bytes) h k = absurd (omega arith)
ver-take (suc zero) (a ∷ b ∷ c ∷ d ∷ bytes) h k = absurd (omega arith)
ver-take (suc (suc zero)) (a ∷ b ∷ c ∷ d ∷ bytes) h k = absurd (omega arith)
ver-take (suc (suc (suc zero))) (a ∷ b ∷ c ∷ d ∷ bytes) h k = absurd (omega arith)

first_read-some :
    (again : Recv) (bytes stream : List ℕ)
    → length bytes ≡ size_v1
    → first_read again (some bytes) stream ≡ read_rest again bytes (drop size_v1 stream)
unfolding first_read
first_read-some again [] stream h = absurd (omega arith)
first_read-some again (b ∷ bytes) stream h =
    rw short (ap (λ n. read_rest again (b ∷ bytes) (drop n stream)) h)
  where
    short : ltb (suc (length bytes)) size_v1 ≡ false
    short = ground arith

second_read-some :
    (head bytes : List ℕ) → 0 < length bytes → second_read head (some bytes) ≡ whole (head ++ bytes)
unfolding second_read
second_read-some head [] h = absurd (omega arith)
second_read-some head (b ∷ bytes) h = refl

-- The lengths of the versions that are known
lengths :
    (v : ℤ)
    → unknown_version v ≡ false
    → ((expected_len v ≡ 20) × (eq_ℤ v (pos 1) ≡ true))
      ⊎ (((expected_len v ≡ 64) ⊎ (expected_len v ≡ 144)) × (eq_ℤ v (pos 1) ≡ false))
unfolding expected_len
lengths v h = ground arith

module _ (wire : List ℕ) (known : unknown_version (ver wire) ≡ false)
    (full : length wire ≡ expected_len (ver wire)) where
  long : 20 ≤ length wire
  long = elim (lengths (ver wire) known) [
    | inl (e, f) ↦ omega arith
    | inr (inl e, f) ↦ omega arith
    | inr (inr e, f) ↦ omega arith
  ]

  head_ver : ver (take 20 wire) ≡ ver wire
  head_ver = ver-take 20 wire (omega arith) (omega (arith, long))

  whole_wire :
      (length wire ≡ 20) ⊎ ((length wire ≡ 64) ⊎ (length wire ≡ 144))
      → whole wire ≡ (pos (length wire), zero_filled wire)
  unfolding whole
  whole_wire h = ground arith

  rest_read :
      20 < length wire
      → length wire ≤ 144
      → recv (recvs 124) (expected_len (ver wire) - 20) (drop 20 wire) ≡ some (drop 20 wire)
  unfolding recv
  rest_read h k = ap some (
      take_all
        (if ltb 124 (expected_len (ver wire) - 20) then 124 else expected_len (ver wire) - 20)
        (drop 20 wire) (ground (arith, length-drop 20 wire, full)))

  read_rest_whole :
      read_rest (recvs 124) (take 20 wire) (drop 20 wire) ≡ (pos (length wire), zero_filled wire)
  unfolding read_rest
  read_rest_whole = elim (lengths (ver wire) known) [
    | inl (e, f) ↦
        rw (head_ver, known, f)
          (ap whole (take_all 20 wire (omega (arith, full, e))) ∙ whole_wire (inl (full ∙ e)))
    | inr (inl e, f) ↦ rw (head_ver, known, f) (second (inl (full ∙ e)))
    | inr (inr e, f) ↦ rw (head_ver, known, f) (second (inr (full ∙ e)))
  ]
    where
      second :
          (length wire ≡ 64) ⊎ (length wire ≡ 144)
          → second_read
              (take 20 wire)
              (recv (recvs 124) (expected_len (ver wire) - 20) (drop 20 wire))
            ≡ (pos (length wire), zero_filled wire)
      second h =
          ap (second_read (take 20 wire)) (rest_read (ground arith) (ground arith))
          ∙ second_read-some (take 20 wire) (drop 20 wire) (ground (arith, length-drop 20 wire))
          ∙ ap whole (take++drop 20 wire)
          ∙ whole_wire (inr h)

  recv_whole : recv_cmd (recvs 20) (recvs 124) wire ≡ (pos (length wire), zero_filled wire)
  unfolding recv_cmd
  recv_whole =
      ap (λ r. first_read (recvs 124) r wire) first
      ∙ first_read-some (recvs 124) (take 20 wire) wire (length-take 20 wire long)
      ∙ read_rest_whole
    where
      first : recv (recvs 20) size_v1 wire ≡ some (take 20 wire)
      first = unfold recv in refl

-- A message of a known version in memory, sent on a valid descriptor of a socket that takes all of it,
-- and then read by calls of `recv` that are not cut short: `send_cmd` returns the length of the
-- version, and `recv_cmd` returns the same length with the same bytes of the structure, the rest of
-- which is zero.
pub recv_cmd-send_cmd :
    (fd : ℕ) (memory : List ℕ)
    → length memory ≡ size_v3
    → unknown_version (ver memory) ≡ false
    → let (status, wire) = send_cmd true (λ bytes. pos (length bytes)) (pos fd) memory in
      (status ≡ pos (expected_len (ver memory)))
      × (recv_cmd (recvs 20) (recvs 124) wire ≡ (
        pos (expected_len (ver memory)),
        zero_filled (take (expected_len (ver memory)) memory),
      ))
recv_cmd-send_cmd fd memory full known = (
  ap (λ r. r.0) sent,
  ap (λ r. recv_cmd (recvs 20) (recvs 124) r.1) sent
      ∙ recv_whole wire (ap unknown_version same ∙ known) (len_wire ∙ sym (ap expected_len same))
      ∙ ap (λ n. (pos n, zero_filled wire)) len_wire,
)
  where
    len : ℕ
    len = expected_len (ver memory)

    wire : List ℕ
    wire = take len memory

    bounds : (20 ≤ len) × (len ≤ 144)
    bounds = ground (arith, lengths (ver memory) known)

    len_wire : length wire ≡ len
    len_wire = length-take len memory (omega (arith, bounds.1, full))

    same : ver wire ≡ ver memory
    same = ver-take len memory (omega (arith, bounds.0)) (omega (arith, full))

    fd_valid : ltb_ℤ (pos fd) (pos 0) ≡ false
    fd_valid = ground arith

    sent : send_cmd true (λ bytes. pos (length bytes)) (pos fd) memory ≡ (pos len, wire)
    sent =
        unfold send_cmd in
        rw (fd_valid, known)
          (ap (λ n. (pos n, take n wire)) len_wire
            ∙ ap (λ w. (pos len, w)) (take_all len wire (omega (arith, len_wire))))

-- ===== src/Prolink/Updates/Status/RoundTrip.antt =====
-- What is built for port 50002 is parsed back.
use mathlib.Core.Path.{subst}
use player.Common.{
  ℕ, zero, suc, ◌+◌, ◌-◌, ◌^◌, ◌≤◌, ◌<◌, ◌≡◌, refl, sym, ap, ◌∙◌, min, true, false, List, [], ◌∷◌,
  ◌++◌, set, replicate, get_or, length, leb, ltb, take, drop, arith, length-replicate, All,
}
use player.Common.Text.{list_eq, trim}
use player.Prolink.Packets.{
  magic, shown, u8_at, is_foreign, check, ok, name_at, be16, be32, put16, put32, mixer_status_len,
}
use player.Prolink.Packets.Bytes.{spelled, IsName}
use player.Prolink.Announce.{copy_at}
use player.Prolink.Updates.{update_packet, update_header}
use player.Prolink.Updates.Header.{header, update_header_lem, read_name, word16, word32}
use player.Prolink.Updates.Status.{
  CdjStatus, MixerStatus, parse_cdj_status, parse_mixer_status, build_cdj_status,
  build_mixer_status, built_len, firmware_shown, put_track, put_state,
}

-- A mixer status whose name is printable, without spaces around it and of 20 bytes at most, and
-- whose pitch and tempo fit 32 and 16 bits, is read back whole.
pub parse-build_mixer_status :
    (m : MixerStatus)
    → IsName m.name
    → m.pitch < 2 ^ 32
    → m.bpm_x100 < 2 ^ 16
    → parse_mixer_status (build_mixer_status m) ≡ ok m
unfolding parse_mixer_status build_mixer_status update_packet check is_foreign name_at spelled u8_at
parse-build_mixer_status m n pitch bpm =
    rw (update_header_lem 0x29 m.name 0x01 0x00 m.device mixer_status_len (replicate 20 0)) (λ i.
      ok (record m {
        name = read_name m.name n i;
        pitch = word32 m.pitch pitch i;
        bpm_x100 = word16 m.bpm_x100 bpm i;
      }))

replicate-add : (m n : ℕ) → replicate {A = ℕ} (m + n) 0 ≡ replicate m 0 ++ replicate n 0
replicate-add zero n = ap (λ k. replicate k 0) {y = n} (omega arith)
replicate-add (suc m) n =
    ap (λ k. replicate k 0) {y = suc (m + n)} (omega arith) ∙ ap (◌∷◌ 0) (replicate-add m n)

zeros :
    (n : ℕ)
    → 208 ≤ n
    → n ≤ 1024
    → replicate {A = ℕ} (built_len n) 0
      ≡ replicate 36 0 ++ (replicate 172 0 ++ replicate (n - 208) 0)
zeros n lo hi = ap (λ k. replicate k 0) (omega arith) ∙ replicate-add 208 (n - 208)

-- A byte of the firmware's version is visible ASCII.
abbrev pub IsGraphic : ℕ → Type 0
IsGraphic b = (33 ≤ b) × (b ≤ 126)

-- The four bytes of the firmware's field.
abbrev version : List ℕ → List ℕ
version fw = get_or fw 0 0 ∷ get_or fw 1 0 ∷ get_or fw 2 0 ∷ get_or fw 3 0 ∷ []

version_shown : (fw : List ℕ) → length fw ≤ 4 → All IsGraphic fw → firmware_shown (version fw) ≡ fw
unfolding firmware_shown
version_shown [] h p = refl
version_shown (a ∷ []) h p = ground arith
version_shown (a ∷ b ∷ []) h p = ground arith
version_shown (a ∷ b ∷ c ∷ []) h p = ground arith
version_shown (a ∷ b ∷ c ∷ d ∷ []) h p = ground arith
version_shown (a ∷ b ∷ c ∷ d ∷ e ∷ fw) h p = absurd (omega arith)

copy_suc : (x n : ℕ) (xs bs : List ℕ) → copy_at (x ∷ xs) (suc n) bs ≡ x ∷ copy_at xs n bs
unfolding copy_at
copy_suc x n xs [] = refl
copy_suc x n xs (b ∷ bs) =
    ap (λ k. copy_at (x ∷ set xs n b) k bs) (omega arith) ∙ copy_suc x (n + 1) (set xs n b) bs

copy_version :
    (front back fw : List ℕ)
    → copy_at (front ++ (0 ∷ 0 ∷ 0 ∷ 0 ∷ back)) (length front) (take 4 fw)
      ≡ front ++ (version fw ++ back)
unfolding copy_at
copy_version (x ∷ front) back fw =
    copy_suc x (length front) _ (take 4 fw) ∙ ap (◌∷◌ x) (copy_version front back fw)
copy_version [] back [] = refl
copy_version [] back (a ∷ []) = refl
copy_version [] back (a ∷ b ∷ []) = refl
copy_version [] back (a ∷ b ∷ c ∷ []) = refl
copy_version [] back (a ∷ b ∷ c ∷ d ∷ fw) = refl

-- A status that the wire can carry: of a length that is built, with fields that fit.
abbrev pub IsStatus : CdjStatus → Type 0
IsStatus s =
    IsName s.name
    × ((208 ≤ s.packet_len) × (s.packet_len ≤ 1024))
    × ((length s.firmware ≤ 4) × All IsGraphic s.firmware)
    × ((s.pitch < 2 ^ 32) × (s.bpm_x100 < 2 ^ 16) × (s.beat < 2 ^ 32))

-- The packet with its header, over `tail`, and with the part before its firmware.
abbrev tracked : CdjStatus → List ℕ → List ℕ
tracked s tail =
    put_track (header 0x0a s.name 0x01 0x03 s.device s.packet_len (replicate 172 0 ++ tail)) s

firmware_lem :
    (s : CdjStatus) (tail : List ℕ)
    → copy_at (tracked s tail) 0x7c (take 4 s.firmware)
      ≡ take 0x7c (tracked s tail) ++ (version s.firmware ++ drop 0x80 (tracked s tail))
unfolding put_track spelled
firmware_lem s tail =
    copy_version (take 0x7c (tracked s tail)) (drop 0x80 (tracked s tail)) s.firmware

build_lem :
    (s : CdjStatus)
    → IsStatus s
    → build_cdj_status s
      ≡ put_state
          (take 0x7c (tracked s (replicate (s.packet_len - 208) 0))
            ++ (version s.firmware ++ drop 0x80 (tracked s (replicate (s.packet_len - 208) 0))))
          s
unfolding build_cdj_status update_packet
build_lem s (n, (lo, hi), fw, words) =
    let clamped : built_len s.packet_len ≡ s.packet_len = omega arith in
    ap
      (λ z.
        put_state
          (copy_at
            (put_track (update_header z 0x0a s.name 0x01 0x03 s.device (built_len s.packet_len)) s)
            0x7c (take 4 s.firmware))
          s)
      (zeros s.packet_len lo hi)
    ∙ ap
        (λ k.
          put_state
            (copy_at
              (put_track
                (update_header
                  (replicate 36 0 ++ (replicate 172 0 ++ replicate (s.packet_len - 208) 0)) 0x0a
                  s.name 0x01 0x03 s.device k)
                s)
              0x7c (take 4 s.firmware))
            s)
        clamped
    ∙ ap (λ p. put_state (copy_at (put_track p s) 0x7c (take 4 s.firmware)) s)
        (update_header_lem 0x0a s.name 0x01 0x03 s.device s.packet_len
          (replicate 172 0 ++ replicate (s.packet_len - 208) 0))
    ∙ ap (λ p. put_state p s) (firmware_lem s (replicate (s.packet_len - 208) 0))

-- A status packet that is long enough is read field by field.
parse_lem :
    (p : List ℕ)
    → 208 ≤ length p
    → list_eq (take 10 p) magic ≡ true
    → u8_at p 0x0a ≡ 0x0a
    → parse_cdj_status p
      ≡ ok (record {
        device = u8_at p 0x21;
        name = trim (shown (take 20 (drop 0x0b p)));
        packet_len = length p;
        activity = u8_at p 0x27;
        track_type = u8_at p 0x2a;
        play_state = u8_at p 0x7b;
        firmware = firmware_shown (take 4 (drop 0x7c p));
        flags = u8_at p 0x89;
        play_state_2 = u8_at p 0x8b;
        pitch = be32 p 0x8c;
        bpm_x100 = be16 p 0x92;
        master_handoff = u8_at p 0x9f;
        beat = be32 p 0xa0;
        beat_within_bar = u8_at p 0xa6;
      })
unfolding parse_cdj_status check is_foreign name_at
parse_lem p long m k =
    let a : leb (length p) 10 ≡ false = ground arith in
    let b : ltb (length p) 0xcc ≡ false = ground arith in
    let c : min 31 (length p) ≡ 31 = omega arith in rw (a, m, k, b, c) refl

-- The packet that `build_cdj_status` builds.
abbrev built : CdjStatus → List ℕ
built s =
    let p = tracked s (replicate (s.packet_len - 208) 0) in
    put_state (take 0x7c p ++ (version s.firmware ++ drop 0x80 p)) s

length-built : (s : CdjStatus) → 208 ≤ s.packet_len → length (built s) ≡ s.packet_len
unfolding put_track put_state spelled
length-built s lo = omega (arith, length-replicate {A = ℕ} (s.packet_len - 208) 0)

-- A CDJ status of 208 to 1024 bytes is read back whole, if its name is printable ASCII without
-- spaces around it and of 20 bytes at most, its firmware of 4 visible ASCII bytes at most, and its
-- pitch, tempo and beat fit 32, 16 and 32 bits.
pub parse-build_cdj_status :
    (s : CdjStatus) → IsStatus s → parse_cdj_status (build_cdj_status s) ≡ ok s
unfolding spelled u8_at put_track put_state be16 be32 put16 put32
parse-build_cdj_status s (n, (lo, hi), (short, visible), (pitch, bpm, beat)) =
    rw (build_lem s (n, (lo, hi), (short, visible), (pitch, bpm, beat))) (
      parse_lem (built s) (subst (λ k. 208 ≤ k) (sym (length-built s lo)) lo) refl refl ∙ (λ i.
        ok (record s {
          name = read_name s.name n i;
          packet_len = length-built s lo i;
          firmware = version_shown s.firmware short visible i;
          pitch = word32 s.pitch pitch i;
          bpm_x100 = word16 s.bpm_x100 bpm i;
          beat = word32 s.beat beat i;
        })))

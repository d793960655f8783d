-- ===== src/Frames/Print.antt =====
-- The log that frames are written as, and that a scan of it gives the frames.
use df_code_audit.Prelude.{
  ℕ, suc, true, false, ◌≡◌, refl, sym, ap, ◌∙◌, Option, none, some, List, [], ◌∷◌, ◌++◌, arith,
  if◌then◌else◌, ◌==◌,
}
use mathlib.Core.List.{append-nil, append_assoc}
use df_code_audit.Prelude.Text.{Bytes, is_empty}
use df_code_audit.Frames.{
  Frame, keep_before, trim_cr, cut_prefix, ts_mark, event_mark, data_mark, Kind, ts_line,
  event_line, data_line, blank_line, kind_of, ts_kind, event_kind, data_kind, rest_kind, Pending,
  scan_line, scan_from, scan,
}

-- A frame as the engine's log writes it: its time, where there is one, its name, its data, and a blank
-- line.
unfoldable pub print_frame : Frame → List Bytes
print_frame f =
    let rest = (event_mark ++ f.name) ∷ (data_mark ++ f.event_data) ∷ [] ∷ [] in
    if is_empty f.ts then rest else (ts_mark ++ f.ts) ∷ rest

unfoldable pub print_frames : List Frame → List Bytes
unfolding print_frame
print_frames [] = []
print_frames (f ∷ fs) = print_frame f ++ print_frames fs

-- A frame with the number of its data line, after `n` lines.
unfoldable pub numbered : ℕ → List Frame → List Frame
numbered n [] = []
numbered n (f ∷ fs) =
    if is_empty f.ts
    then record f { line = suc (suc n) } ∷ numbered (suc (suc (suc n))) fs
    else record f { line = suc (suc (suc n)) } ∷ numbered (suc (suc (suc (suc n)))) fs

-- No field ends in a carriage return.
pub record IsPlain (f : Frame) : Type 0 where
  pub name : trim_cr f.name ≡ f.name
  pub event_data : trim_cr f.event_data ≡ f.event_data
  pub ts : trim_cr f.ts ≡ f.ts

abbrev pub Plains : List Frame → Type 0
Plains [] = Unit
Plains (f ∷ fs) = IsPlain f × Plains fs

abbrev NoCr : Bytes → Type 0
NoCr [] = Unit
NoCr (c ∷ s) = ((c == 13) ≡ false) × NoCr s

kept : (c : ℕ) (s : Bytes) → (c == 13) ≡ false → keep_before c s ≡ c ∷ s
kept c [] h = rw h refl
kept c (d ∷ s) h = refl

trim_cr-append : (p s : Bytes) → NoCr p → trim_cr s ≡ s → trim_cr (p ++ s) ≡ p ++ s
unfolding trim_cr
trim_cr-append [] s n h = h
trim_cr-append (c ∷ p) s n h =
    ap (λ t. keep_before c t) (trim_cr-append p s n.1 h) ∙ kept c (p ++ s) n.0

same_char : (d : ℕ) → (d == d) ≡ true
same_char d = ground arith

cut_prefix-append : (p s : Bytes) → cut_prefix p (p ++ s) ≡ some s
unfolding cut_prefix
cut_prefix-append [] s = refl
cut_prefix-append (d ∷ p) s = rw (same_char d) (cut_prefix-append p s)

ts_kind_of : (t : Bytes) → trim_cr t ≡ t → kind_of (trim_cr (ts_mark ++ t)) ≡ ts_line t
unfolding kind_of ts_kind
ts_kind_of t h =
    ap (λ l. kind_of l) (trim_cr-append ts_mark t (refl, (refl, (refl, (refl, (refl, tt))))) h)
    ∙ ap (λ o. ts_kind (ts_mark ++ t) o) (cut_prefix-append ts_mark t)

event_kind_of : (t : Bytes) → trim_cr t ≡ t → kind_of (trim_cr (event_mark ++ t)) ≡ event_line t
unfolding kind_of ts_kind event_kind cut_prefix
event_kind_of t h =
    ap (λ l. kind_of l)
      (trim_cr-append event_mark t (refl, (refl, (refl, (refl, (refl, (refl, (refl, tt))))))) h)

data_kind_of : (t : Bytes) → trim_cr t ≡ t → kind_of (trim_cr (data_mark ++ t)) ≡ data_line t
unfolding kind_of ts_kind event_kind data_kind cut_prefix
data_kind_of t h =
    ap (λ l. kind_of l)
      (trim_cr-append data_mark t (refl, (refl, (refl, (refl, (refl, (refl, tt)))))) h)

-- The frames are gathered in their order.
unfoldable pub gather : {E : Type 0} → Frame → List Frame → List Frame × Option E
gather f fs = (fs ++ f ∷ [], none)

abbrev frame : Bytes → Bytes → ℕ → Bytes → Frame
frame name d line ts = record { name = name; event_data = d; line = line; ts = ts }

module _ {E : Type 0} (end : Option E) where
  abbrev go : List Bytes → Pending → List Frame → List Frame × Option E
  go = scan_from {S = List Frame} gather end

  abbrev at_line : Bytes → Bytes → ℕ → Pending
  at_line name ts line = record { name = name; ts = ts; line = line }

  go_kind :
      (l : Bytes) (k : Kind) (lines : List Bytes) (p : Pending) (fs : List Frame)
      → kind_of (trim_cr l) ≡ k
      → go (l ∷ lines) p fs ≡ scan_line {S = List Frame} gather k (suc p.line) p fs (go lines)
  unfolding scan_from
  go_kind l k lines p fs h =
      ap (λ x. scan_line {S = List Frame} gather x (suc p.line) p fs (go lines)) h

  -- The three lines of a frame after its time.
  frame_lines :
      (name d ts : Bytes) (n : ℕ) (lines : List Bytes) (fs : List Frame)
      → trim_cr name ≡ name
      → trim_cr d ≡ d
      → go ((event_mark ++ name) ∷ (data_mark ++ d) ∷ [] ∷ lines) (at_line [] ts n) fs
        ≡ go lines (at_line [] [] (suc (suc (suc n)))) (fs ++ frame name d (suc (suc n)) ts ∷ [])
  unfolding scan_line gather kind_of ts_kind event_kind data_kind rest_kind cut_prefix trim_cr
  frame_lines name d ts n lines fs h k =
      go_kind (event_mark ++ name) (event_line name) _ (at_line [] ts n) fs (event_kind_of name h)
      ∙ go_kind (data_mark ++ d) (data_line d) _ (at_line name ts (suc n)) fs (data_kind_of d k)
      ∙ go_kind [] blank_line lines (at_line [] [] (suc (suc n))) _ refl

  frame_scan :
      (name d ts : Bytes) (l n : ℕ) (lines : List Bytes) (fs more : List Frame)
      → IsPlain (frame name d l ts)
      → ((m : ℕ) (gs : List Frame) → go lines (at_line [] [] m) gs ≡ (gs ++ numbered m more, end))
      → go (print_frame (frame name d l ts) ++ lines) (at_line [] [] n) fs
        ≡ (fs ++ numbered n (frame name d l ts ∷ more), end)
  unfolding print_frame numbered scan_line
  frame_scan name d [] l n lines fs more p k =
      frame_lines name d [] n lines fs p.name p.event_data
      ∙ k (suc (suc (suc n))) _
      ∙ ap (λ (gs : List Frame). (gs, end))
          (append_assoc fs (frame name d (suc (suc n)) [] ∷ []) (numbered (suc (suc (suc n))) more))
  frame_scan name d (c ∷ ts) l n lines fs more p k =
      go_kind (ts_mark ++ c ∷ ts) (ts_line (c ∷ ts)) _ (at_line [] [] n) fs
        (ts_kind_of (c ∷ ts) p.ts)
      ∙ frame_lines name d (c ∷ ts) (suc n) lines fs p.name p.event_data
      ∙ k (suc (suc (suc (suc n)))) _
      ∙ ap (λ (gs : List Frame). (gs, end))
          (append_assoc fs (frame name d (suc (suc (suc n))) (c ∷ ts) ∷ [])
            (numbered (suc (suc (suc (suc n)))) more))

  frames_scan :
      (frames : List Frame) (n : ℕ) (fs : List Frame)
      → Plains frames
      → go (print_frames frames) (at_line [] [] n) fs ≡ (fs ++ numbered n frames, end)
  unfolding print_frames numbered scan_from
  frames_scan [] n fs p = ap (λ (gs : List Frame). (gs, end)) (sym (append-nil fs))
  frames_scan (f ∷ frames) n fs p =
      frame_scan f.name f.event_data f.ts f.line n (print_frames frames) fs frames p.0
        (λ m gs. frames_scan frames m gs p.1)

  -- A log of frames whose fields do not end in a carriage return scans to these frames, each with the
  -- number of its data line, in order and with no other, and ends as the scanner does.
  pub scan-print_frames :
      (frames : List Frame)
      → Plains frames
      → scan {S = List Frame} gather end (print_frames frames) [] ≡ (numbered 0 frames, end)
  unfolding scan
  scan-print_frames frames p = frames_scan frames 0 [] p

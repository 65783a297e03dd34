-- ===== src/Grpcweb/Framing/Frames.antt =====
-- Reading back a body of frames.
use shark_socket.Base.{
  ℕ, zero, suc, ◌%◌, ◌^◌, ◌≤◌, ◌<◌, ◌≡◌, refl, sym, ap, ◌∙◌, Bool, true, false, some, List, [], ◌∷◌,
  ◌++◌, arith, length, Result, ok, put_uint32, uint32_of-put_uint32, All, append_assoc, append-nil,
  length-append, take-append_length, drop-append_length,
}
use shark_socket.Grpcweb.Framing.{
  FrameError, add_frame, frames_loop, parse_data_frames, append_data_frame, append_trailer_frame,
  trailers, data_frame_flag, trailer_frame_flag,
}

abbrev pub Sized : List ℕ → Type 0
Sized payload = length payload < 2 ^ 32

frame : ℕ → List ℕ → List ℕ
frame flag payload = flag ∷ put_uint32 (length payload % 2 ^ 32) ++ payload

frames_loop-frame :
    (fuel flag : ℕ) (payload out out' rest : List ℕ) (framed : Bool)
    → Sized payload
    → add_frame flag payload out ≡ some out'
    → frames_loop (suc fuel) out framed (frame flag payload ++ rest)
      ≡ frames_loop fuel out' true rest
unfolding frames_loop frame
frames_loop-frame fuel flag payload out out' rest framed h e = ground (
  arith,
  uint32_of-put_uint32 (length payload) h,
  length-append payload rest,
  take-append_length payload rest,
  drop-append_length payload rest,
  e,
)

-- What a server writes: a data frame for each payload.
pub data_frames : List ℕ → List (List ℕ) → List ℕ
data_frames dst [] = dst
data_frames dst (payload ∷ payloads) = data_frames (append_data_frame dst payload) payloads

pub flat : List (List ℕ) → List ℕ
flat [] = []
flat (payload ∷ payloads) = payload ++ flat payloads

frames : List (List ℕ) → List ℕ
frames [] = []
frames (payload ∷ payloads) = frame data_frame_flag payload ++ frames payloads

data_frames-frames :
    (dst : List ℕ) (payloads : List (List ℕ)) → data_frames dst payloads ≡ dst ++ frames payloads
unfolding data_frames frames append_data_frame frame
data_frames-frames dst [] = rw append-nil
data_frames-frames dst (payload ∷ payloads) =
    data_frames-frames (dst ++ frame data_frame_flag payload) payloads
    ∙ append_assoc dst (frame data_frame_flag payload) (frames payloads)

-- The loop behind the data frames, with enough fuel for what follows them.
frames_loop-frames :
    (payloads : List (List ℕ)) (fuel : ℕ) (out rest : List ℕ) (framed : Bool)
    (r : Result FrameError (List ℕ × Bool))
    → All Sized payloads
    → length (frames payloads ++ rest) ≤ fuel
    → ((f : ℕ) (framed' : Bool)
        → length rest ≤ f
        → frames_loop f (out ++ flat payloads) framed' rest ≡ r)
    → frames_loop fuel out framed (frames payloads ++ rest) ≡ r
unfolding frames flat
frames_loop-frames [] fuel out rest framed r a h k = rw append-nil at (k fuel framed h)
frames_loop-frames (payload ∷ payloads) zero out rest framed r (w, a) h k =
    absurd (unfold frame in omega arith)
frames_loop-frames (payload ∷ payloads) (suc fuel) out rest framed r (w, a) h k =
    rw (append_assoc (frame data_frame_flag payload) (frames payloads) rest) (
      frames_loop-frame fuel data_frame_flag payload out (out ++ payload) _ framed w
        (unfold add_frame in refl)
      ∙ frames_loop-frames payloads fuel (out ++ payload) rest true r a
          (shorter payload (frames payloads) rest fuel h)
          λ f framed' hf. rw (append_assoc out payload (flat payloads)) (k f framed' hf))
  where
    shorter :
        (payload more rest : List ℕ) (fuel : ℕ)
        → length (frame data_frame_flag payload ++ more ++ rest) ≤ suc fuel
        → length (more ++ rest) ≤ fuel
    shorter payload more rest fuel h =
        unfold frame in
        omega (
          arith,
          length-append (payload ++ more) rest,
          length-append payload more,
          length-append more rest,
        )

frames_loop-end :
    (fuel : ℕ) (out : List ℕ) (framed : Bool) → frames_loop fuel out framed [] ≡ ok (out, framed)
unfolding frames_loop
frames_loop-end zero out framed = refl
frames_loop-end (suc fuel) out framed = refl

frames_loop-trailer :
    (fuel : ℕ) (payload out : List ℕ) (framed : Bool)
    → Sized payload
    → length (frame trailer_frame_flag payload) ≤ fuel
    → frames_loop fuel out framed (frame trailer_frame_flag payload) ≡ ok (out, true)
frames_loop-trailer zero payload out framed w h = absurd (unfold frame in omega arith)
frames_loop-trailer (suc fuel) payload out framed w h =
    ap (frames_loop (suc fuel) out framed) (sym (append-nil (frame trailer_frame_flag payload)))
    ∙ frames_loop-frame fuel trailer_frame_flag payload out out [] framed w
        (unfold add_frame in refl)
    ∙ frames_loop-end fuel out true

parse_data_frames-framed :
    (body out : List ℕ)
    → frames_loop (length body) [] false body ≡ ok (out, true)
    → parse_data_frames body ≡ ok (some out)
unfolding parse_data_frames
parse_data_frames-framed body out e = rw (e, parse_data_frames)

append_trailer_frame-frame :
    (dst : List ℕ) (status : ℕ) (message : List ℕ)
    → append_trailer_frame dst status message
      ≡ dst ++ frame trailer_frame_flag (trailers status message)
unfolding append_trailer_frame frame
append_trailer_frame-frame dst status message = refl

-- A body of data frames with a trailer frame behind them, as the server writes it, is read back as
-- the payloads joined; the trailers are not part of it.
pub parse_data_frames-append_trailer_frame :
    (payloads : List (List ℕ)) (status : ℕ) (message : List ℕ)
    → All Sized payloads
    → Sized (trailers status message)
    → parse_data_frames (append_trailer_frame (data_frames [] payloads) status message)
      ≡ ok (some (flat payloads))
parse_data_frames-append_trailer_frame payloads status message a w =
    rw (data_frames-frames [] payloads, append_trailer_frame-frame (frames payloads) status message)
      (parse_data_frames-framed _ _ (
        frames_loop-frames payloads _ [] _ false _ a (omega arith) λ f framed hf.
          frames_loop-trailer f (trailers status message) (flat payloads) framed w hf))

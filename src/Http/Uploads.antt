-- ===== src/Http/Uploads.antt =====
-- The body that src/api/server.c collects.
use airies_ups_c.Base.{
  ℕ, ◌+◌, ◌≤◌, ◌≡◌, ◌⊎◌, inl, inr, sym, ap, ◌∙◌, Bool, true, false, Option, none, some, List, [],
  ◌∷◌, ◌++◌, append-nil, append_assoc, length, length-append, Bool-cases, arith, if◌then◌else◌, ltb,
}
use airies_ups_c.Http.Files.{Sources}
use airies_ups_c.Http.{
  PostBody, new_body, new_capacity, add_upload, Server, HttpRequest, Response, dispatch,
  request_handler,
}

-- The calls of one request after the first: one for each part of the upload, then one without.
pub run_uploads :
    (List ℕ → Option PostBody → Option PostBody × Option Response)
    → List (List ℕ)
    → Option PostBody
    → Option PostBody × Option Response
run_uploads step [] state = step [] state
run_uploads step (upload ∷ uploads) state = run_uploads step uploads (step upload state).0

abbrev pub concat : List (List ℕ) → List ℕ
concat [] = []
concat (l ∷ ls) = l ++ concat ls

abbrev pub AllFilled : List (List ℕ) → Type 0
AllFilled [] = Unit {0}
AllFilled ([] ∷ uploads) = ⊥
AllFilled ((c ∷ upload) ∷ uploads) = AllFilled uploads

capacity-enough : (needed capacity : ℕ) → needed ≤ new_capacity needed capacity
unfolding new_capacity
capacity-enough needed capacity = ground arith

-- The buffer is unused, or has room for its text and a final zero.
abbrev pub HasRoom : PostBody → Type 0
HasRoom pb = (pb.body ≡ []) ⊎ (length pb.body + 1 ≤ pb.capacity)

-- Every part, kept or not, leaves room for the zero that is written after the text.
pub add_upload-HasRoom :
    (ok : Bool) (pb : PostBody) (upload : List ℕ) → HasRoom pb → HasRoom (add_upload ok pb upload)
unfolding add_upload
add_upload-HasRoom ok pb upload h =
    elim (Bool-cases (ltb pb.capacity (length pb.body + length upload + 1))) [
      | inl grows ↦ rw grows (grown ok)
      | inr fits ↦ rw fits (inr (ground (arith, length-append pb.body upload)))
    ]
  where
    grown :
        (ok' : Bool)
        → HasRoom (
            if ok'
            then record {
              body = pb.body ++ upload;
              capacity = new_capacity (length pb.body + length upload + 1) pb.capacity;
            }
            else pb)
    grown true = inr (
        omega (
          arith,
          length-append pb.body upload,
          capacity-enough (length pb.body + length upload + 1) pb.capacity,
        ))
    grown false = h

-- With memory, a part is appended.
added : (pb : PostBody) (upload : List ℕ) → (add_upload true pb upload).body ≡ pb.body ++ upload
unfolding add_upload
added pb upload = ground arith

module _ (files : Sources) (srv : Server) (auth : Option (HttpRequest → Bool)) (is_local : Bool)
    (url method : List ℕ) (token : Option (List ℕ)) where
  abbrev pub step : List ℕ → Option PostBody → Option PostBody × Option Response
  step = request_handler files srv auth is_local url method token true

  collects :
      (uploads : List (List ℕ)) (pb : PostBody)
      → AllFilled uploads
      → run_uploads step uploads (some pb) ≡ (
        none,
        some (dispatch files srv auth is_local url method token (pb.body ++ concat uploads)),
      )
  unfolding run_uploads request_handler
  collects [] pb h =
      ap (λ (b : List ℕ). (none, some (dispatch files srv auth is_local url method token b)))
        (sym (append-nil pb.body))
  collects ([] ∷ uploads) pb h = elim h [ ]
  collects ((c ∷ upload) ∷ uploads) pb h =
      collects uploads (add_upload true pb (c ∷ upload)) h
      ∙ ap (λ (b : List ℕ). (none, some (dispatch files srv auth is_local url method token b)))
          (ap (λ (l : List ℕ). l ++ concat uploads) (added pb (c ∷ upload))
            ∙ append_assoc pb.body (c ∷ upload) (concat uploads))

  -- If the parts of an upload are not empty and there is memory for them, the request ends with the state
  -- released, and its response is that to the parts put together in their order.
  pub uploads_joined :
      (uploads : List (List ℕ))
      → AllFilled uploads
      → run_uploads step uploads (step [] none).0
        ≡ (none, some (dispatch files srv auth is_local url method token (concat uploads)))
  unfolding request_handler
  uploads_joined uploads h = collects uploads new_body h

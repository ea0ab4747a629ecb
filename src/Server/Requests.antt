-- ===== src/Server/Requests.antt =====
-- The requests of the protocol, as clients write them, and what a connection of
-- src/evr-glacier-storage.c has to answer, over an abstract store that maps keys to blobs.
use everarch.Prelude.{ℕ, ◌+◌, ◌≤◌, ◌<◌, ◌≡◌, true, Option, none, some, List, [], ◌∷◌, ◌++◌, length}
use everarch.Errors.{ok}
use everarch.Bytes.{u32, push_u8}
use everarch.Files.ReadN.{Flows}
use everarch.Glacier.Chunks.{concat}
use everarch.Glacier.ReadBlob.{missing}
use everarch.Glacier.ReadShown.{IsAt}
use everarch.GlacierCmd.{CmdHeader, format_cmd_header, format_resp_header, format_stat_blob_resp}
use everarch.Server.Commands.{max_blob_data_size, empty_resp, known_strategy, writing_blob}
use everarch.Server.Actions.{Store}

pub data Request : Type 0 where
  get_blob : List ℕ → Request
  put_blob : List ℕ → ℕ → List ℕ → Request
  stat_blob : List ℕ → Request
  configure_connection : ℕ → List ℕ → Request
  unknown : ℕ → List ℕ → Request

abbrev pub request_type : Request → ℕ
request_type (get_blob key) = 1
request_type (put_blob key flags body) = 2
request_type (stat_blob key) = 3
request_type (configure_connection strategy more) = 5
request_type (unknown type body) = type

abbrev pub request_body : Request → List ℕ
request_body (get_blob key) = key
request_body (put_blob key flags body) = key ++ ((flags ∷ []) ++ body)
request_body (stat_blob key) = key
request_body (configure_connection strategy more) = strategy ∷ more
request_body (unknown type body) = body

abbrev pub request_header : Request → CmdHeader
request_header r = record { type = request_type r; body_size = length (request_body r) }

unfoldable pub format_request : Request → List ℕ
format_request r = format_cmd_header (request_header r) ++ request_body r

unfoldable pub format_requests : List Request → List ℕ
format_requests [] = []
format_requests (r ∷ rs) = format_request r ++ format_requests rs

-- What a client has to keep to, with the hash behind the keys.
abbrev pub IsRequest : (List ℕ → List ℕ) → Request → Type 0
IsRequest hash (get_blob key) = length key ≡ 28
IsRequest hash (put_blob key flags body) =
    (length key ≡ 28) × (length body ≤ max_blob_data_size) × (hash body ≡ key)
IsRequest hash (stat_blob key) = length key ≡ 28
IsRequest hash (configure_connection strategy more) = length more < 512
IsRequest hash (unknown type body) = (5 < type) × (type < 256) × (length body < u32)

abbrev pub get_reply : Option (ℕ × List ℕ) → List ℕ
get_reply none = empty_resp 69
get_reply (some (flags, body)) =
    (format_resp_header (record { status_code = 32; body_size = 1 + length body }) ++ push_u8 flags)
    ++ body

abbrev pub stat_reply : Option (ℕ × List ℕ) → List ℕ
stat_reply none = empty_resp 69
stat_reply (some (flags, body)) =
    format_resp_header (record { status_code = 32; body_size = 5 })
    ++ format_stat_blob_resp (record { flags = flags; blob_size = length body })

abbrev pub strategy_after : Request → ℕ → ℕ
strategy_after (configure_connection strategy more) s = known_strategy strategy
strategy_after r s = s

module _ {G : Type 0} (st : Store G) (holds : G → List ℕ → Option (ℕ × List ℕ)) where
  -- The persister was given the blob and has its result.
  abbrev pub Persisted : G → ℕ → List ℕ → ℕ → List ℕ → G → Type 0
  Persisted g strategy key flags body g' =
      (chunks : List (List ℕ)) × (g1 : G) × (concat chunks ≡ body)
      × (st.queue_task g (writing_blob st key (flags ∷ []) (length body) chunks strategy)
          ≡ (ok, g1))
      × (st.wait_for_task g1 ≡ (ok, g'))
      × (st.task_result g' ≡ ok)

  -- one request, at the store and the sync strategy that it meets, with the answer and the store that
  -- it leaves
  abbrev pub Answers : G → ℕ → Request → List ℕ → G → Type 0
  Answers g s (get_blob key) resp g' = (resp ≡ get_reply (holds g key)) × (g' ≡ g)
  Answers g s (put_blob key flags body) resp g' =
      (resp ≡ empty_resp 32) × Persisted g s key flags body g'
  Answers g s (stat_blob key) resp g' = (resp ≡ stat_reply (holds g key)) × (g' ≡ g)
  Answers g s (configure_connection strategy more) resp g' = (resp ≡ empty_resp 32) × (g' ≡ g)
  Answers g s (unknown type body) resp g' = (resp ≡ empty_resp 7) × (g' ≡ g)

  -- a whole conversation; in front of each request the other threads have worked
  abbrev pub Conversation : G → ℕ → List Request → List ℕ → Type 0
  Conversation g s [] out = out ≡ []
  Conversation g s (r ∷ rs) out =
      (resp : List ℕ) × (rest : List ℕ) × (g' : G) × (out ≡ resp ++ rest)
      × Answers (st.others g) s r resp g'
      × Conversation g' (strategy_after r s) rs rest

-- The store is in order: the index names a place of each blob that is held and of no other, nothing
-- that the worker calls fails, and the persister appends what it is given.
pub record Works {G : Type 0} (st : Store G) (holds : G → List ℕ → Option (ℕ × List ℕ)) (fuel : ℕ)
    (IsSound : G → Type 0) : Type 0 where
  pub others_sound : (g : G) → IsSound g → IsSound (st.others g)
  pub is_missing :
      (g : G) (key : List ℕ) → IsSound g → holds g key ≡ none → st.find_blob g key ≡ missing
  pub is_at :
      (g : G) (key : List ℕ) (flags : ℕ) (body : List ℕ)
      → IsSound g
      → holds g key ≡ some (flags, body)
      → IsAt (st.find_blob g key) (st.buckets g) flags body
  pub is_short :
      (g : G) (key : List ℕ) (flags : ℕ) (body : List ℕ)
      → IsSound g
      → holds g key ≡ some (flags, body)
      → length body ≤ fuel
  pub reads : (g : G) → IsSound g → Flows (st.bucket_grants g)
  pub creates : (g : G) → IsSound g → st.create_read_ctx g ≡ true
  pub opens : (g : G) → IsSound g → st.blob_ref_open g ≡ true
  pub allocates :
      (g : G) (size : ℕ)
      → IsSound g
      → size ≤ max_blob_data_size
      → st.allocate_chunk_set g size ≡ true
  pub inits : (g : G) → IsSound g → st.init_task g ≡ true
  pub destroys : (g : G) → IsSound g → st.destroy_task g ≡ true
  pub frees : (g : G) → IsSound g → st.free_read_ctx g ≡ true
  pub closes : (g : G) → IsSound g → st.close_socket g ≡ true
  pub persists :
      (g : G) (key flags body : List ℕ) (chunks : List (List ℕ)) (strategy : ℕ)
      → IsSound g
      → concat chunks ≡ body
      → length body ≤ max_blob_data_size
      → st.hash body ≡ key
      → (g1 : G) × (g' : G) × (st.queue_task g
            (writing_blob st key flags (length body) chunks strategy)
          ≡ (ok, g1))
        × (st.wait_for_task g1 ≡ (ok, g'))
        × (st.task_result g' ≡ ok)
        × IsSound g'

-- ===== src/Server/Requests.antt =====
-- What the server of example/callee/Zserver.cc sends back for the requests of its clients.
use rpc_base_on_zookeeper.Base.{
  ℤ, pos, negsuc, ◌<◌, ◌^◌, Bytes, text, bytes_eq, ℕ, ◌≡◌, ◌∙◌, refl, ap, Bool, true, some, is_some,
  List, [], ◌∷◌, ◌++◌, All,
}
use rpc_base_on_zookeeper.Table.{find}
use rpc_base_on_zookeeper.Wire.{Runtime, RuntimeLaws}
use rpc_base_on_zookeeper.Wire.Frame.{request_frame}
use rpc_base_on_zookeeper.Provider.{Service, calls, on_message, notify_service, send_rpc_response}
use rpc_base_on_zookeeper.Provider.Dispatch.{FitsWire, named, notify_all, on_message-registered}
use rpc_base_on_zookeeper.Cache.{Cache}
use rpc_base_on_zookeeper.User.{Stub}
use rpc_base_on_zookeeper.Server.{
  Method, cache_service, user_service, service_map, Asked, sets, gets, deletes, asks_exists,
  gets_batch, asks_stats, logs_in, registers, sums, asks_profile, method_of, Codec, Moment, handle,
  parses, call_handler, react, serve, serve_all,
}

-- The numbers that a field of type int32 holds.
abbrev pub IsInt32 : ℤ → Type 0
IsInt32 (pos n) = n < 2 ^ 31
IsInt32 (negsuc n) = n < 2 ^ 31

-- The numbers of a request fit the fields of its message, of type int32 and uint32.
abbrev pub InRange : Asked → Type 0
InRange (sets r) = IsInt32 r.expire_seconds
InRange (registers r) = r.id < 2 ^ 32
InRange (sums n) = IsInt32 n
InRange (asks_profile id) = id < 2 ^ 32
InRange _ = Unit

-- A request that was serialized parses as it was.
pub record CodecLaws (codec : Codec) : Type 0 where
  pub parse-serialize :
      (q : Asked)
      → InRange q
      → codec.parse_request (method_of q) (codec.serialize_request q) ≡ some q

-- The service and the method's name by which the generated stub asks for the request.
abbrev pub service_of : Asked → Service Method
service_of (sets r) = cache_service
service_of (gets k) = cache_service
service_of (deletes k) = cache_service
service_of (asks_exists k) = cache_service
service_of (gets_batch ks) = cache_service
service_of asks_stats = cache_service
service_of _ = user_service

abbrev pub name_of : Asked → Bytes
name_of (sets r) = text "Set"
name_of (gets k) = text "Get"
name_of (deletes k) = text "Delete"
name_of (asks_exists k) = text "Exists"
name_of (gets_batch ks) = text "BatchGet"
name_of asks_stats = text "GetStats"
name_of (logs_in r) = text "Login"
name_of (registers r) = text "Register"
name_of (sums n) = text "SumtoN"
name_of (asks_profile id) = text "GetUserProfile"

abbrev pub services : List (Service Method)
services = cache_service ∷ user_service ∷ []

pub find-service : (q : Asked) → find (service_of q).name (named services) ≡ some (service_of q)
unfolding find bytes_eq text cache_service user_service
find-service (sets r) = refl
find-service (logs_in r) = refl
find-service _ = refl

pub find-method : (q : Asked) → find (name_of q) (service_of q).methods ≡ some (method_of q)
unfolding find bytes_eq text cache_service user_service
find-method (sets r) = refl
find-method _ = refl

pub service_map_lem : service_map ≡ notify_all services []
unfolding service_map notify_all notify_service
service_map_lem = refl

module _ (r : Runtime) (codec : Codec) where
  -- The frame that CallMethod of the client sends for a request.
  unfoldable pub frame_of : Asked → Bytes
  frame_of q = request_frame r (service_of q).name (name_of q) (codec.serialize_request q)

  abbrev pub frames : List (Asked × Moment) → List (Bytes × Moment)
  frames [] = []
  frames ((q, t) ∷ more) = (frame_of q, t) ∷ frames more

  abbrev pub Fits : Asked × Moment → Type 0
  Fits (q, t) = InRange q × FitsWire r (service_of q).name (name_of q) (codec.serialize_request q)

  module _ (laws : RuntimeLaws r) (codec_laws : CodecLaws codec) where
    frame-calls :
        (q : Asked) (t : Moment)
        → Fits (q, t)
        → on_message r (parses codec) (frame_of q) service_map
          ≡ calls (service_of q) (method_of q) (codec.serialize_request q)
    unfolding frame_of
    frame-calls q t fits =
        let parsed : parses codec (method_of q) (codec.serialize_request q) ≡ true =
          ap is_some (codec_laws.parse-serialize q fits.0) in
        ap (on_message r (parses codec) (frame_of q)) service_map_lem
        ∙ on_message-registered r laws (parses codec) services (service_of q) (name_of q)
            (codec.serialize_request q) (method_of q) fits.1 (find-service q) (find-method q) parsed

module _ {W : Type 0} (cache_of : W → Cache) (put_cache : Cache → W → W) (stub : Stub W)
    (enabled : Bool) (entry_size : ℕ) (r : Runtime) (codec : Codec) where
  -- The handlers, called one after the other, and the bytes of their responses.
  unfoldable pub handle_all : List (Asked × Moment) → W → W × List Bytes
  handle_all [] w = (w, [])
  handle_all ((q, t) ∷ more) w =
      let (w', a) = handle cache_of put_cache stub enabled entry_size q t w in
      let (w'', out) = handle_all more w' in
      (w'', send_rpc_response (codec.serialize_response a) ++ out)

  module _ (laws : RuntimeLaws r) (codec_laws : CodecLaws codec) where
    serve-frame :
        (q : Asked) (t : Moment) (w : W)
        → Fits r codec (q, t)
        → serve cache_of put_cache stub enabled entry_size r codec (frame_of r codec q) t w ≡ (
            let (w', a) = handle cache_of put_cache stub enabled entry_size q t w in
            (w', send_rpc_response (codec.serialize_response a)))
    unfolding serve react call_handler
    serve-frame q t w fits =
        rw (frame-calls r codec laws codec_laws q t fits, codec_laws.parse-serialize q fits.0) refl

    -- The server, sent the frames of any requests of its ten methods one after the other, each
    -- shorter than 2 GB in its parts and with numbers that fit their fields, does what the handlers do when they are called directly in
    -- that order: it comes to the same state and sends the bytes of their responses.
    pub serve_all-handle_all :
        (qs : List (Asked × Moment)) (w : W)
        → All (Fits r codec) qs
        → serve_all cache_of put_cache stub enabled entry_size r codec (frames r codec qs) w
          ≡ handle_all qs w
    unfolding serve_all handle_all
    serve_all-handle_all [] w fits = refl
    serve_all-handle_all ((q, t) ∷ more) w fits =
        let (w', a) = handle cache_of put_cache stub enabled entry_size q t w in
        rw (serve-frame q t w fits.0, serve_all-handle_all more w' fits.1) refl

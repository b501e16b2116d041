-- ===== src/Wss/SocketIo/Connected.antt =====
-- The packet that opens a connection, and its answer.
use cosnet.Prelude.{◌≡◌, refl, Option, ◌∷◌, ◌++◌, arith, length, take-append_eq}
use cosnet.Prelude.Bytes.{Bytes, Lacks, index_byte, index_byte-append, index_byte-Lacks}
use cosnet.Message.Env.{Env}
use cosnet.Wss.SocketIo.{
  SocketIo, Peer, Session, namespace_in, namespace_or, handshake, send_text, handle_connect,
  dispatch, read_message, build_connect_packet,
}

namespace_whole :
    (t : SocketIo) (ns : Bytes) → Lacks b',' ns → namespace_in t (b'/' ∷ ns) ≡ b'/' ∷ ns
unfolding namespace_in index_byte
namespace_whole t ns lacks = ground (arith, index_byte-Lacks b',' ns lacks)

namespace_queried :
    (t : SocketIo) (ns query : Bytes)
    → Lacks b',' ns
    → namespace_in t (b'/' ∷ (ns ++ (b',' ∷ query))) ≡ b'/' ∷ ns
unfolding namespace_in index_byte
namespace_queried t ns query lacks = ground (
  arith,
  index_byte-append b',' ns query lacks,
  take-append_eq (length ns) ns (b',' ∷ query) refl,
)

module _ {V : Type 0} (env : Env V) where
  -- A CONNECT packet that `BuildConnectPacket` builds with a namespace without a comma, given or
  -- the transform's own, is answered by `ReadMessage` with one text frame, whether a comma and a
  -- query follow the namespace or not: a CONNECT packet with a slash in front of that namespace,
  -- and the handshake with the id of the socket. The message stays as it was, and the error is that
  -- of the write; a socket without a connection panics.
  pub read_message-build_connect_packet :
      (t : SocketIo) (peer : Peer) (ns : Option Bytes) (query : Bytes) (s : Session)
      → Lacks b',' (namespace_or t ns)
      → (read_message env t peer (build_connect_packet t ns) s
          ≡ send_text peer (b'0' ∷ b'/' ∷ (namespace_or t ns ++ (b',' ∷ handshake peer.id))) s)
        × (read_message env t peer (build_connect_packet t ns ++ (b',' ∷ query)) s
            ≡ send_text peer (b'0' ∷ b'/' ∷ (namespace_or t ns ++ (b',' ∷ handshake peer.id))) s)
  unfolding read_message dispatch handle_connect build_connect_packet
  read_message-build_connect_packet t peer ns query s lacks = (
    rw (namespace_whole t (namespace_or t ns) lacks) refl,
    rw (namespace_queried t (namespace_or t ns) query lacks) refl,
  )

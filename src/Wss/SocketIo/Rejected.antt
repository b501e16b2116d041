-- ===== src/Wss/SocketIo/Rejected.antt =====
-- Packets that the transform builds itself and does not read.
use cosnet.Prelude.{◌≡◌, refl, Option, err, invalid_ack_id, invalid_attachments}
use cosnet.Prelude.Int.{ℤ}
use cosnet.Prelude.Bytes.{Bytes, index_byte}
use cosnet.Prelude.Decimal.{parse_int}
use cosnet.Message.Env.{Env}
use cosnet.Wss.SocketIo.{
  SocketIo, Peer, Session, handle_ack, handle_binary_event, dispatch, read_message,
  build_ack_packet, build_binary_event_packet,
}

module _ {V : Type 0} (env : Env V) where
  -- `ReadMessage` refuses every acknowledgement packet that `BuildAckPacket` builds, as an invalid
  -- number, and changes nothing.
  pub read_message-build_ack_packet :
      (t : SocketIo) (peer : Peer) (ack_id : ℤ) (packet_data : Bytes) (s : Session)
      → read_message env t peer (build_ack_packet ack_id packet_data) s ≡ (s, err invalid_ack_id)
  unfolding read_message dispatch handle_ack build_ack_packet index_byte parse_int
  read_message-build_ack_packet t peer ack_id packet_data s = refl

  -- `ReadMessage` refuses every binary event packet that `BuildBinaryEventPacket` builds, as an
  -- invalid number of attachments, and changes nothing.
  pub read_message-build_binary_event_packet :
      (t : SocketIo) (peer : Peer) (attachments : ℤ) (name packet_data : Bytes) (ack_id : Option ℤ)
      (s : Session)
      → read_message env t peer (build_binary_event_packet attachments name packet_data ack_id) s
        ≡ (s, err invalid_attachments)
  unfolding read_message dispatch handle_binary_event build_binary_event_packet index_byte parse_int
  read_message-build_binary_event_packet t peer attachments name packet_data ack_id s = refl

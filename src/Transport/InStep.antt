-- ===== src/Transport/InStep.antt =====
-- Two sides of a connection: what one sends, the other receives.
use flatline.Common.{ℕ, ◌+◌, ◌≤◌, ◌<◌, ◌≡◌, sym, ap, ◌∙◌, arith, ◌&&◌, if◌then◌else◌, ◌%◌, ◌^◌}
use flatline.Common.{List, [], ◌++◌, length, ok}
use flatline.Stream.Fill.{all_bytes, NonEmpty}
use flatline.Transport.{
  PlainStream, padding_length, packet_bytes, send_payload, recv_packet, is_newkeys, resets,
}
use flatline.Transport.Packets.{padding_length-bounds}
use flatline.Transport.Exchange.{CanWrite, input_of, send_payload_packet, recv_packet_packet}

-- The sides agree: the next packet of `a` has the number that `b` expects, and both know whether the key
-- exchange is strict.
pub record InStep (a b : PlainStream) : Type 0 where
  pub same_number : a.client.sequence_number ≡ b.server.sequence_number
  pub same_strict :
      (a.client.kex_strict && a.server.kex_strict) ≡ (b.client.kex_strict && b.server.kex_strict)

-- Two sides that are in step, `a` with nothing sent before, and `b` with the bytes that `a` sends and then
-- `rest` in front of it, in nonempty blocks: for a payload of 1 to 32768 bytes, when the padding has the
-- length asked for, and enough writes and the flush behind them succeed, `b` receives the payload, `rest` stays to be read, and the
-- sides are in step again, also behind a message that resets the numbers.
pub recv_packet-send_payload :
    (rng : ℕ → List ℕ) (payload rest : List ℕ) (a b : PlainStream)
    → ((n : ℕ) → length (rng n) ≡ n)
    → 0 < length payload
    → length payload ≤ 32768
    → CanWrite (length payload + 16) a.socket
    → a.socket.outgoing ≡ []
    → NonEmpty b.socket.incoming
    → all_bytes (input_of b.socket) ≡ (send_payload rng payload a).1.socket.outgoing ++ rest
    → InStep a b
    → let (sent, a') = send_payload rng payload a in
      let (received, b') = recv_packet b in
      (sent ≡ ok tt)
      × (received
          ≡ ok (record { payload = payload; padding = rng (padding_length (length payload)) }))
      × (all_bytes (input_of b'.socket) ≡ rest)
      × InStep a' b'
recv_packet-send_payload rng payload rest a b fills some_byte small h fresh solid e step =
    let padding = rng (padding_length (length payload)) in
    let (low, high, round) = padding_length-bounds (length payload) in
    let filled = fills (padding_length (length payload)) in
    let (takes, sends) = send_payload_packet rng payload a fills some_byte small h in
    let out : (send_payload rng payload a).1.socket.outgoing ≡ packet_bytes payload padding =
      ap (λ x. x.1.socket.outgoing) sends ∙ ap (λ xs. xs ++ packet_bytes payload padding) fresh in
    let (i, receives, left, still) =
      recv_packet_packet payload padding rest b some_byte (omega arith) solid
        (e ∙ ap (λ xs. xs ++ rest) out) in
    let same_reset : resets a payload ≡ resets b payload =
      ap (λ strict. is_newkeys payload && strict) step.same_strict in
    (
      ap (λ x. x.0) sends,
      ap (λ x. x.0) receives,
      ap (λ x. all_bytes (input_of x.1.socket)) receives ∙ left,
      record {
        same_number =
            ap (λ x. x.1.client.sequence_number) sends
            ∙ ap (λ r. if r then 0 else (a.client.sequence_number + 1) % 2 ^ 32) same_reset
            ∙ ap (λ n. if resets b payload then 0 else (n + 1) % 2 ^ 32) step.same_number
            ∙ sym (ap (λ x. x.1.server.sequence_number) receives);
        same_strict =
            ap (λ x. x.1.client.kex_strict && x.1.server.kex_strict) sends
            ∙ step.same_strict
            ∙ sym (ap (λ x. x.1.client.kex_strict && x.1.server.kex_strict) receives);
      },
    )

-- ===== src/Lwm2m/Tlv/Decode.antt =====
-- Decoding any input: the loop ends, and what the decoder accepts is a row of whole records.

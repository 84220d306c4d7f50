-- ===== src/Wire/Errors.antt =====
-- proto/errors.go: the errors of the protocol, and the error values of the package.
use Prim.Native.String.{String}
use kafka.Base.{ℕ, ◌≢◌, List, [], ◌∷◌, Option, none, some, ◌==◌, if◌then◌else◌}

pub record KafkaError : Type 0 where
  pub errno : ℕ
  pub message : String

-- The `error` values that the package makes or passes on; nil is `none`.
pub data Error : Type 0 where
  -- io.EOF and io.ErrUnexpectedEOF
  eof unexpected_eof : Error
  -- ErrNotEnoughData
  not_enough_data : Error
  kafka_error : KafkaError → Error
  -- fmt.Errorf("unknown kafka error %d", errno)
  unknown_errno : ℕ → Error
  -- the encoder's "cannot write" and "cannot encode type", and the slice writer's error
  short_write cannot_encode_type buffer_too_small : Error
  -- readMessageSet's and snappyDecode's errors, told apart by their texts
  cannot_decode_message gzip_error snappy_error bad_codec_version : Error
  bad_compression : ℕ → Error
  -- any other error of a reader or a writer, such as a network error
  io_error : ℕ → Error

abbrev pub err_unknown : KafkaError
err_unknown = record { errno = 65535; message = "unknown error" }

abbrev pub err_offset_out_of_range : KafkaError
err_offset_out_of_range = record { errno = 1; message = "offset out of range" }

abbrev pub err_invalid_message : KafkaError
err_invalid_message = record { errno = 2; message = "invalid message" }

abbrev pub err_unknown_topic_or_partition : KafkaError
err_unknown_topic_or_partition = record {
  errno = 3;
  message = "[transient] unknown topic or partition";
}

abbrev pub err_invalid_message_size : KafkaError
err_invalid_message_size = record { errno = 4; message = "invalid message size" }

abbrev pub err_leader_not_available : KafkaError
err_leader_not_available = record { errno = 5; message = "[transient] leader not available" }

abbrev pub err_not_leader_for_partition : KafkaError
err_not_leader_for_partition = record {
  errno = 6;
  message = "[transient] not leader for partition";
}

abbrev pub err_request_timeout : KafkaError
err_request_timeout = record { errno = 7; message = "[transient] request timed out" }

abbrev pub err_broker_not_available : KafkaError
err_broker_not_available = record { errno = 8; message = "broker not available" }

abbrev pub err_replica_not_available : KafkaError
err_replica_not_available = record { errno = 9; message = "replica not available" }

abbrev pub err_message_size_too_large : KafkaError
err_message_size_too_large = record { errno = 10; message = "message size too large" }

abbrev pub err_scale_controller_epoch : KafkaError
err_scale_controller_epoch = record { errno = 11; message = "scale controller epoch" }

abbrev pub err_offset_metadata_too_large : KafkaError
err_offset_metadata_too_large = record { errno = 12; message = "offset metadata too large" }

abbrev pub err_offset_load_in_progress : KafkaError
err_offset_load_in_progress = record {
  errno = 14;
  message = "[transient] offsets load in progress";
}

abbrev pub err_no_coordinator : KafkaError
err_no_coordinator = record {
  errno = 15;
  message = "[transient] consumer coordinator not available";
}

abbrev pub err_not_coordinator : KafkaError
err_not_coordinator = record { errno = 16; message = "[transient] not coordinator for consumer" }

abbrev pub err_invalid_topic : KafkaError
err_invalid_topic = record { errno = 17; message = "operation on an invalid topic" }

abbrev pub err_record_list_too_large : KafkaError
err_record_list_too_large = record {
  errno = 18;
  message = "message batch larger than the configured segment size";
}

abbrev pub err_not_enough_replicas : KafkaError
err_not_enough_replicas = record { errno = 19; message = "[transient] not enough in-sync replicas" }

abbrev pub err_not_enough_replicas_after_append : KafkaError
err_not_enough_replicas_after_append = record {
  errno = 20;
  message =
      "[transient] messages are written to the log, but to fewer in-sync replicas than required";
}

abbrev pub err_invalid_required_acks : KafkaError
err_invalid_required_acks = record { errno = 21; message = "invalid value for required acks" }

abbrev pub err_illegal_generation : KafkaError
err_illegal_generation = record { errno = 22; message = "consumer generation id is not valid" }

abbrev pub err_inconsistent_partition_assignment_strategy : KafkaError
err_inconsistent_partition_assignment_strategy = record {
  errno = 23;
  message = "partition assignment strategy does not match that of the group";
}

abbrev pub err_unknown_parititon_assignment_strategy : KafkaError
err_unknown_parititon_assignment_strategy = record {
  errno = 24;
  message = "partition assignment strategy is unknown to the broker";
}

abbrev pub err_unknown_consumer_id : KafkaError
err_unknown_consumer_id = record {
  errno = 25;
  message = "coordinator is not aware of this consumer";
}

abbrev pub err_invalid_session_timeout : KafkaError
err_invalid_session_timeout = record { errno = 26; message = "invalid session timeout" }

abbrev pub err_commiting_paritions_not_assigned : KafkaError
err_commiting_paritions_not_assigned = record {
  errno = 27;
  message = "committing partitions are not assigned the committer";
}

abbrev pub err_invalid_commit_offset_size : KafkaError
err_invalid_commit_offset_size = record { errno = 28; message = "offset data size is not valid" }

abbrev pub err_authorization_failed : KafkaError
err_authorization_failed = record { errno = 29; message = "not authorized" }

abbrev pub err_rebalance_in_progress : KafkaError
err_rebalance_in_progress = record {
  errno = 30;
  message = "group is rebalancing, rejoin is needed";
}

-- The map errnoToErr; an int16 key is its bit pattern.
unfoldable pub errno_to_err : List (ℕ × KafkaError)
errno_to_err =
    (65535, err_unknown)
    ∷ (1, err_offset_out_of_range)
    ∷ (2, err_invalid_message)
    ∷ (3, err_unknown_topic_or_partition)
    ∷ (4, err_invalid_message_size)
    ∷ (5, err_leader_not_available)
    ∷ (6, err_not_leader_for_partition)
    ∷ (7, err_request_timeout)
    ∷ (8, err_broker_not_available)
    ∷ (9, err_replica_not_available)
    ∷ (10, err_message_size_too_large)
    ∷ (11, err_scale_controller_epoch)
    ∷ (12, err_offset_metadata_too_large)
    ∷ (14, err_offset_load_in_progress)
    ∷ (15, err_no_coordinator)
    ∷ (16, err_not_coordinator)
    ∷ (17, err_invalid_topic)
    ∷ (18, err_record_list_too_large)
    ∷ (19, err_not_enough_replicas)
    ∷ (20, err_not_enough_replicas_after_append)
    ∷ (21, err_invalid_required_acks)
    ∷ (22, err_illegal_generation)
    ∷ (23, err_inconsistent_partition_assignment_strategy)
    ∷ (24, err_unknown_parititon_assignment_strategy)
    ∷ (25, err_unknown_consumer_id)
    ∷ (26, err_invalid_session_timeout)
    ∷ (27, err_commiting_paritions_not_assigned)
    ∷ (28, err_invalid_commit_offset_size)
    ∷ (29, err_authorization_failed)
    ∷ (30, err_rebalance_in_progress)
    ∷ []

unfoldable pub find_errno : ℕ → List (ℕ × KafkaError) → Option KafkaError
find_errno errno [] = none
find_errno errno ((k, e) ∷ m) = if k == errno then some e else find_errno errno m

unfoldable pub unknown_unless : ℕ → Option KafkaError → Option Error
unknown_unless errno none = some (unknown_errno errno)
unknown_unless errno (some e) = some (kafka_error e)

unfoldable pub err_from_no : ℕ → Option Error
unfolding unknown_unless
err_from_no errno =
    if errno == 0 then none else unknown_unless errno (find_errno errno errno_to_err)

pub unknown_unless-some :
    (errno : ℕ) (found : Option KafkaError) → unknown_unless errno found ≢ none
unfolding unknown_unless
unknown_unless-some errno none = λ e. cc
unknown_unless-some errno (some k) = λ e. cc

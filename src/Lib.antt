-- ===== src/Lib.antt =====
-- A model of cuebee-speaker-serving, a service that turns streams of audio into speaker segments and
-- attributes transcripts to speakers, with the theorems about its parts.
--
-- How the parts interact: a chunk of audio passes the gateway, which admits each sequence number of
-- a session once; the frontend assembles windows of features; the batcher mixes the windows of many
-- sessions into batches for inference; the assigner gives each embedding to a speaker that a store
-- holds, or creates one; the timeline keeps the segments, and the aligner attributes the words of
-- speech-to-text to them. The autoscaler watches the load.
--
-- Which module models which file (paths below src/cuebee_speaker):
--   Domain      domain.py: the records, `audio_chunk` for AudioChunk.__post_init__, and the
--               exceptions as values (`Result`).
--   Config      config.py: the configurations and their checks.
--   Gateway     gateway.py: `accept` and `forget` on the dictionary of cursors. Admission, Gaps and
--               Trace hold its theorems.
--   Frontend    audio/frontend.py and the decoding of audio/pcm.py: `push`, `windows`, `flush`,
--               `forget`. Windows and Grid hold its theorems; Owner what Server/Tenants rests on.
--   Batcher     inference/batcher.py: `submit`, `select_ready_bucket`, `next_wake_at` and
--               `take_batch`; Run is `_run`, `_execute`, `backlog` and `close`, on the futures of the
--               requests, and Runs is its steps in any order. Collect, Batch, Left, Select, Resolve,
--               Answers and Close hold its theorems; Futures, Outcomes, Taken, Queues, Drain, Reach, Submitted
--               and Asked what these rest on.
--   Worker      inference/native_worker.py: Wire is the bytes of requests and responses and the
--               reader, Request the checks and the request, Effects the state; `exchange`,
--               `infer_batch`, `close` and `init` are the methods. Codec and Infer hold its theorems;
--               Stream, Answer, Header, Exchange and Retry what these rest on.
--   Metrics     metrics.py: `increment`, `set_gauge`, `observe`, `snapshot`, `prometheus_text`.
--               Window holds its theorem.
--   Pipeline    pipeline.py: `ingest_audio`, `flush_session`, `align_stt` and `rename_speaker`
--               as compositions of the parts above. Retransmit and Isolation hold its theorems;
--               Keeps and Sessions what these and Server/Tenants rest on.
--   Server      server.py: Messages reads the fields of a message, `dispatch` is the method, on the
--               ServiceRuntime of factory.py, and Connection is `handle_client`. Tenants, Frame and
--               Replies hold its theorems; Reads, Leaves and Branches what these rest on.
--   Store       state/store.py: Memory is InMemorySpeakerStore, Sqlite is SQLiteSpeakerStore, both on
--               one type of states; SpeakerId is the identifiers; Calls makes a step of each call.
--               Fresh, Unique, Isolation and Refinement hold the theorems.
--   Assignment  assignment.py: `assign`, `rename` and `profiles` over an interface
--               `SpeakerStore` that both stores fill. Nearest, Identity and Stores hold its theorems;
--               Owner what Server/Tenants rests on.
--   Alignment   alignment.py: `add`, `query`, `forget` and `align`. Timeline, Slots, Aligner and
--               Joined hold its theorems.
--   Autoscaler  autoscaler.py: `recommend`. Decision, History and Hysteresis hold its theorems.
--   Factory     factory.py: which backend `build_runtime` builds, and from what arguments.
--   Base        what the modules share: integers, dictionaries, the stable sort, lists, floats.
--   Tests       runs at concrete inputs.
--
-- Conventions. An object is a record and a method a function from the state before to the state
-- behind; a method that holds the lock of its object, or of its session, is one step. Python's
-- integers are the natural numbers or `ℤ`; a `dict` is an association list in insertion order. A
-- float is a type with an instance of `Float`: its operations are parameters, and the laws that a
-- theorem needs are the hypothesis `IsOrdered`. The operations of numpy that the assigner uses are
-- the parameter `Vectors`, and those that the frontend takes from the detector, the filter bank and
-- Python's rounding are the parameter `Signal`. Texts on which the code computes are lists of code
-- points; `str.isspace`, and `isdigit` and `int` of a suffix (`Digits`), are parameters. No text
-- has a lone surrogate, which UTF-8 does not encode. The process of the native worker and its
-- pipes are a `World`, which says what comes of each exchange and each start; the clock and the
-- backend of the batcher are a `Round`; what the metrics take from numpy and `str` is `Numeric`.
-- JSON, base64 and the conversions of Python are the parameters `Codec` and `Conversions`, and
-- what a connection reads is a list of `Turn`s. What the batcher returns to a call of the pipeline
-- is the parameter `embed`, since it depends on what other sessions submit; `Gathers` is what
-- `asyncio.gather` makes of the futures. The text of an error is kept without the values that the
-- source puts into it.
--
-- Bounds. The loop of the frontend runs on a number of rounds; one more than the samples of the
-- stream is enough where a hop has a sample. The reader of the native worker runs on a number of
-- rounds, one more than there are responses, and the runner of the batcher on one more than the
-- requests that wait when it closes. The digits of a number are computed with one round more
-- than the number. Every other loop follows a list.
--
-- Not modelled: the detector, the filter bank and the inference backends (numeric code), the C++
-- worker, the start of the server's process, and the rest of factory.py and demo.py, which build the
-- objects and run them. A message in which a field that is annotated as a text holds another JSON value
-- ends the model of the server: Python passes the value on. The waiting of asyncio and the locks are
-- not states: a method under a lock is one step.
pub mod Base
pub mod Domain
pub mod Gateway
pub mod Tests
pub mod Config
pub mod Autoscaler
pub mod Batcher
pub mod Alignment
pub mod Store
pub mod Assignment
pub mod Factory
pub mod Frontend
pub mod Worker
pub mod Metrics
pub mod Pipeline
pub mod Server

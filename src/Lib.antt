-- ===== src/Lib.antt =====
-- The live translation server takes streams of Opus audio in Ogg pages from its clients, collects each
-- stream in a window of the last seconds, transcribes the window, and decides which of the transcribed
-- words are final. A pipeline of modules (`m_*.py`) does this work on data packages, one page per
-- package; `ogg.py` reads the pages. Servers for UDP and TCP clients bring the pages in and carry the
-- words out; their callbacks are kept in event handlers.
--
-- Which file models which part:
--  * Data: data.py, Python's exceptions as results, and what a module leaves of a call: its own state,
--    the data package with its status and message, and the exception that ended the call, if any.
--  * Ogg: ogg.py. Bytes has what the code uses of Python's bytes, Utf8 the strict decoder. Page reads
--    a page (`OggS_Page._from_bytes`), Split cuts a stream into pages
--    (`_split_ogg_data_into_pages`), Headers reads the two Opus headers, Audio puts these together
--    (`Ogg_OPUS_Audio`).
--  * AudioBuffer: m_create_audio_buffer.py. The record CreateAudioBuffer holds the fields of the
--    object, `execute` is the method, in the pieces that its branches make.
--  * ConfirmWords: m_confirm_words.py, in the same form. What it takes from `str.lower`,
--    `unicodedata.category` and `difflib` is the record TextLib, a parameter.
--  * FasterWhisper, RateLimiter: m_faster_whisper.py and m_rate_limiter.py, in the same form; the
--    transcription, which may raise an exception, and the clock are arguments.
--  * Vad: m_vad.py. `binarize_class` is the loop of `Binarize.__call__` over the frames of one class,
--    `merge_timeline` the loop of `merge_chunks`, `execute` the method of the module. The network and
--    pyannote's Annotation are the record VadLib, a parameter. Load is `load_vad_model` up to the
--    checksum.
--  * ConvertAudio: m_convert_audio.py, in the same form; what a run of ffmpeg comes to is a parameter, and
--    a sample counts units of 1/32768.
--  * Pipeline: the modules of main.py's `controllers` one after the other: Speech up to VAD, Words all
--    of them.
--  * Event: Event.py, the table of callbacks.
--  * Udp: UDPserver.py. The objects of class Client lie in a store, since several lists share them;
--    `receive` is a round of `_listen` on one datagram, `stop_client` is `Client.stop`. The lock of the
--    clients is a field, so that a call that waits for a lock it holds itself ends in `deadlock`. Calls
--    are taken one after the other. Whitelist, Reach and Routing are about the lists of
--    clients and the way of a datagram; Stop has the start and stop of the server.
--  * Tcp: TCPserver.py, class Client. The socket is a list of rounds, what `recv` comes to and when;
--    whether sending succeeds is an arbitrary function; a log keeps what is sent and which callbacks
--    run. The ciphers are the record TcpLib, a parameter. Callbacks has `on_event` and `remove_event`,
--    Server the list of clients of the class Server, Lifecycle its start and stop; Quiet,
--    Opened and Token are about the token, Silence about clients without pings, Stranded about a start that fails.
--  * Stream: StreamServer.py, `_on_tcp_connected` and `Client.stop`, on the model of the UDP server;
--    Delegates has the calls that are handed on to the two sides.
--  * LiveStats: simulate_live_audio_stream.py, `compute_statistics`, the word error rate of live words
--    against a transcript; difflib's opcodes are a parameter. Timing has `time_difference` and `stats`,
--    Counted, Pairs and Found are about the words that `time_difference` finds.
--  * Simulate: simulate.py. Table is `simulation_pipeline_list`, with the arguments that are given to the
--    pipeline library's classes as data; Files has the names of the files that the driver keeps, Driver
--    the loop over the pipelines, Recordings the two loops over the recordings; the disk is a dictionary of
--    files.
--  * App: main.py and Client.py, the dictionary of clients and the callbacks on it, as functions on a
--    record; what they do is a list of actions. Each is told whether the mutex of the clients is held, and one
--    that waits for it is stuck. Live is the list of the clients that are there, Keys and
--    Broadcast relate it to the dictionary, Refines and Stuck draw the conclusions.
--  * Config: Config.py, its checks as functions of a value and a default; Typed is about their types.
--  * Logger: logger.py, the two formatters up to the JSON text; Short and Format are about the lengths of
--    the texts.
--  * Base: lists, integers, Boolean tests, Python's stable sort and dictionaries, for all of them.
--  * Tests: runs on small streams, and the theorems applied to them.
--
-- Numbers: bytes are lists of natural numbers, below 256 where a theorem needs it; texts are lists of
-- code points. Python's floats are modelled by integers, without rounding: times and durations of the
-- audio buffer count samples, so that `seconds >= n` is `samples >= n * sample_rate`, and a division by
-- a sample rate of 0 still raises; in ConfirmWords times are integers in any unit, and probabilities
-- and similarities count billionths.
--
-- Fuel: the loop that splits a stream has as much fuel as the data has bytes; a page takes at least
-- 27, so the loop ends by its own test before the fuel is spent. All other loops follow a list or
-- the number that a `for` loop counts to.
--
-- Not modelled: printing (`__repr__`), the files that logger.py writes to, threads and the order in
-- which they run (but for the thread that accepts TCP clients), sockets below what they give and take, the
-- neural networks and their libraries, ffmpeg itself, and the pipeline library, whose part here is the data
-- package and the status that a module sets. Two lists that share a page object are two lists of equal pages: a duration written
-- into one is not seen in the other. The Go client under bbb-bot is another program.
pub mod Base
pub mod Data
pub mod Ogg
pub mod Event
pub mod Udp
pub mod Pipeline
pub mod App
pub mod Config
pub mod Logger
pub mod Simulate
pub mod ConvertAudio
pub mod LiveStats
pub mod Tcp
pub mod Stream
pub mod Vad
pub mod FasterWhisper
pub mod RateLimiter
pub mod AudioBuffer
pub mod ConfirmWords
mod Tests

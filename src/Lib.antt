-- ===== src/Lib.antt =====
-- Adaptive FPGA-GPU market signal engine: a model of the C++ side of the program, with the theorems
-- that make its components correct.
--
-- The program reads market events, keeps a ten-level order book, computes eight Q16.16 features over
-- the last 64 events, and turns them into trading signals by a linear model. An RTL design does this
-- under Verilator; src/reference/reference_model.cpp is the C++ answer key for it. During a live run
-- the RTL's worker hands its results through a ring to the GPU's worker, which labels them by later
-- prices, learns from full batches, and publishes model updates through a mailbox, from which the RTL's
-- worker takes the newest one.
--
-- The parts and their files, each a module with children for its proofs and its tests:
--   FixedPoint   include/market/fixed_point.hpp: `saturate`, `rounded_divide`, `multiply`, `divide`.
--   Event        include/market/event.hpp and src/market/event.cpp: the data types, `validate_event`
--                and the `to_string` functions.
--   Codec        src/market/event.cpp: `write_binary` and `read_binary`, over lists of bytes.
--   Book         src/market/order_book.cpp: `Book/Array` has the helpers on one side's array (`lookup`,
--                `remove`, `insert`, `saturated_add`), `Book` has `invariants` and `OrderBook::apply`,
--                with its cases as one function each and the candidate copy as a value.
--   Window       `FeatureWindow` of the same file: a ring array of 64 entries with running sums.
--   Features     `midpoint_ticks`, `microprice_ticks`, `calculate_features`, `evaluate_strategy` and
--                `deterministic_checksum` of the same file.
--   Reference    src/reference/reference_model.cpp: `ReferenceModel::process`.
--   Ring         include/app/spsc_ring_buffer.hpp: `SpscRingBuffer`, a step for each member function.
--   Gpu          src/gpu: `Gpu/Protocol` (gpu_protocol.cpp), `Gpu/Mailbox` (model_update_mailbox.cpp),
--                `Gpu/Oracle` (regression_oracle.cpp), `Gpu/Worker` (gpu_worker.cpp: the labelled
--                training rows and `poll_model_update`, with the GPU model's calls taken to succeed).
--   Gpu/Model    src/gpu/gpu_model.cpp: GpuModel::Impl as a record of its handles, buffers, events and
--                mapped memory (`Device` its constructor and cleanup, `Smoke` and `SmokeTest` the doubling
--                kernel, `Stream` and `Training` the batches, `Requests` the public methods).
--   Verilator    src/verilator/verilator_runner.cpp: `Runner` has the ports and their decoding, `Drive` the
--                clock, `reset`, `step` and `process`, `Parameters` the upload of a model.
--   App          src/app: `App/Devices` (opencl_devices.cpp: the discovery and the choice of a GPU),
--                `App/Generator` (market_data_generator.cpp: the loop that draws the events).
--   Prelude      names passed on from the libraries, lists over native indices, ℤ, machine integers.
--
-- State is passed explicitly: an operation takes its object's record and returns the new one. What
-- is thrown is a constructor of a result type, std::nullopt and a null pointer are `none`. An
-- unsigned integer is a number, with a wrap written out where the source can wrap; a signed one is
-- an integer of ℤ, and since signed overflow is undefined the theorems say in which ranges none
-- occurs; the sum of `microprice_ticks`, which valid books can make overflow, is wrapped to 64
-- bits. A narrowing cast to int32_t is `to_i32`, which keeps the low 32 bits. An enumeration read
-- from outside may hold other values than its enumerators, hence the constructors `unknown_type`
-- and `unknown_side`. Every loop is over an array or a count and is a structural recursion, without
-- fuel.
--
-- Concurrency. A ring has one producer and one consumer. Each of its member functions reads at most
-- one position of the other thread and publishes at most one of its own, so that a run is a list of
-- calls of both threads in the order in which they take effect, each access to a slot being through
-- the pointer that the thread was given; a load that lags behind only makes the ring look fuller to
-- the producer and emptier to the consumer. The mailbox holds its mutex in every operation.
--
-- OpenCL and the Verilated design are parameters. OpenCL answers each call as a function of all
-- calls made before it, so that a theorem covers every order of successes and failures; releases,
-- whose status the source does not read, are no calls of this log but reset the handle. The design
-- is a state with an evaluation and ports; what the runner hands over is read from the pins at the
-- rising edges. The runner's two waits take at most 64 cycles each, as in the source, where the
-- limit is a throw.
--
-- Not modelled: the RTL design, the OpenCL kernels, the loops of the workers and the live
-- coordinator with their threads and clocks, the dashboard, the configuration and the model store with
-- their JSON library, the CSV codec, the floating-point conversions of fixed_point.hpp, wall-clock and
-- simulated time, and the program's entry: pure I/O, glue around other libraries, or parts for which the
-- components here are the base.
pub mod Prelude
pub mod FixedPoint
pub mod Event
pub mod Codec
pub mod Book
pub mod Window
pub mod Ring
pub mod Features
pub mod Reference
pub mod Gpu
pub mod Verilator
pub mod App

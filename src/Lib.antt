-- ===== src/Lib.antt =====
-- The core of the submarine's software: how it reads its sensors, drives its motors, keeps its depth
-- and heading, and does its tasks. Paths are from the repository's root.
--
-- Parts, and the files that model them:
--   Prelude/*     names and operators that all share: lists measured by native numbers, integers,
--                 Boolean tests, and Run, the outcome of code that may fault or never return
--   Imu/*         rosWorkspace/SubImuController/src
--     Buffer      common/BufferUtils.cpp: numbers in byte buffers
--     Float32     the conversion of a UInt32 to a float, which InternalTimestamp::serialize uses
--     Field/*     packets/fields: MipField and the classes below it, a module for each class
--     FieldList   packets/MipFieldList.cpp: the linked list of a packet's fields
--     Packet      packets/MipPacket.cpp: header, fields, checksum
--     Driver      SubImuControllerMain.cpp: synchronisation, packets, publication
--   Motor/*       rosWorkspace/SubMotorController/src; first motorController.cpp and .h
--     Time        timeval and getMilliSecsBetween
--     Message     Message, filter, createMessageFromSpeed
--     Handler     MotorControllerHandler: its state, transmit, sendMessage, setMotorSpeed
--     Handler.Receive   processResponse and receive
--     Handler.Schedule  TransmitTimeout, CheckQuery, CheckMotor, spinOnce
--     Handler.Safe, Receives, Sends and Runs   what every run of a handler keeps
--     Node        main.cpp: what a message on /Motor_Control does to the three handlers
--     HighLevel   HighLevelControl.cpp: the managers of the forward, turn and depth thrusters
--     HighLevel.Command   its commandCallback
--   Flood/*       rosWorkspace/SubFloodSensor/src/SubFloodSensorMain.cpp
--     Packet      recvHeader and recvPacket
--     Sensors     the loop of main: what is published of a packet, and of a sensor that is silent
--   Sensor/*      rosWorkspace/SubSensorController/src
--     Timer       timer.cpp, and timeLeft of SubSensorController.cpp
--     Line        getTTYLine and goodLine of SubSensorController.cpp
--     Board       its lock, torpedoCallback and dropperCallback
--     Publish     its main: what is published of a line
--
--   Buoys/*       rosWorkspace/BuoysTask/src
--     Task        BuoysTask.cpp: the search, the centring, performTask; Buoys itself its callbacks
--   Torpedo/*     rosWorkspace/TorpedoTask/src/TorpedoTask.cpp
--   Navigation/*  rosWorkspace/NavigationControl/src/NavigationControl.cpp
--   Depth/*       rosWorkspace/SubDepthController/src/SubDepthController.cpp
--   Heading/*     rosWorkspace/SubHeading/src/SubHeading.cpp
--   Gate/*        rosWorkspace/GateTask/src/GateTask.cpp
--   Obstacle/*    rosWorkspace/ObstacleCourseTask/src/ObstacleCourseTask.cpp
--   Attitude/*    rosWorkspace/SubAttitudeResolver/src/SubAttitudeResolver.cpp: its samples over the
--     serial line, and the means of the readings at rest
--     Kalman      its Kalman filter; Kalman.Matrix and Kalman.Correction have the matrices and the
--                 vectors of the equations
--     Loop        run: the rates at which it samples, filters and publishes
--   Dlt/*         DLT/DLT.cpp, and its reader again in rosWorkspace/SubImageRecognition/src/DLT.cpp:
--     decision trees, classified by, saved and read
--     Counts      the counts of the types, and the type of a leaf
--     Training    CalcEntropy, getBestSplit, splitOn and the constructor that trains
--   Image/*       rosWorkspace/SubImageRecognition/src/ImageRecognition.cpp; Image itself findBlob
--     Recognition objInRange and findBlobs
--     Tracks      trackBlob and updateBlobTracking
--     Callback    computeConfidence and genericCallback
--     Prelude.Float is the arithmetic of the two controllers, of these two tasks and of these means,
--     Prelude.Millionths one to try them on, and Prelude.Node a run of a program that answers what
--     it hears
--     Prelude.Action is the state of a run of the buoys task, which may start a run inside itself
--
-- How the parts interact. The driver reads bytes from recv, finds a packet, and hands it to
-- MipPacket::deserialize, which hands its payload to the field list, which asks
-- DataField::deserializeToField for an object a field. The driver then walks the list and publishes.
-- The handler of a motor board is called by spinOnce: it reads what the board sent, then sends the
-- next speeds or the next query if nothing is awaited, and sends again after a second. The managers of
-- HighLevelControl publish the speeds that motorMessage hands to three handlers; HighLevel.Chain
-- and HighLevel.DepthChain follow a command through both.
-- The flood sensors are a program of their own, which shares the byte buffers. So is the reader of the
-- sensor board: it reads a line, publishes what has changed of it, and writes the commands that other
-- programs ask for under a lock. The tasks and NavigationControl publish commands that HighLevelControl
-- takes; Buoys.Steering, Gate.Outcome and Navigation.Point follow them there.
--
-- Correspondence. A class is a record of its members, and a method a function from the record to its
-- result and the new record; a name of the code in snake_case is the name here. A class hierarchy is
-- a data type with a constructor a class. Pointers to nodes are addresses in an explicit heap. A
-- machine integer is a native number, with the wrap-around written out where the code narrows one; a
-- signed integer is ℤ. A float is the bit pattern of its object, since the code modelled here only
-- moves floats; the conversion to degrees, the comparison of two floats, sscanf, and the products that
-- HighLevelControl makes of a percentage or a multiplier are arguments, and so are the distance to a
-- buoy and the voltage of a thrust. The two controllers, the gate task and the obstacle task compute
-- with floats: there the arithmetic is an argument, and the facts about signs and comparisons that the
-- theorems use are hypotheses. The Kalman filter is compared with its equations in exact arithmetic:
-- that the operations are those of a commutative ring is a hypothesis there, and Prelude.Ring decides
-- such equations by multiplying out. kalmanUpdate uses a place behind the end of its array P_new, which
-- is undefined behaviour: what is read there is an argument, and what else the write may destroy is not
-- modelled. The host is little-endian.
-- The arithmetic of the decision trees is an argument too, with the logarithm. The stream that a tree
-- is read from is the list of its words. Image recognition looks at pixels through such trees; what
-- OpenCV makes of an image or of points, and the heap operations, are arguments.
--
-- What is outside is an argument: the calls of recv are a list of bytes and failures, the serial port
-- of a board is what it delivers and how many bytes it takes, and every clock reading is given. So is
-- how often ros::ok() holds, which bounds the loops of the attitude resolver; its main loop gets
-- rounds, and as many as ros::ok() holds are enough. The sums of its samples
-- are integers, since doubles are exact on numbers of their size (below 2 ^ 25).
--
-- Bounds and fuel. The loops over a list of nodes get one round more than nodes were ever made, which
-- is shown to be enough on every list that the operations build. The loop of
-- MipFieldList::deserialize gets its rounds from the caller: it ends on well-formed payloads within
-- one round more than the payload has bytes, and does not end on others. The loop of receive over a
-- full buffer gets two rounds, since a call of processResponse leaves 0 or 6 bytes. The loops of the
-- flood sensors are bounded by the bytes that are missing and by the retries, as in the code. So are
-- those of the buoys task; a run of it gets a depth, which bounds the runs that messages start inside
-- it, and a depth above the number of these messages is enough. The centring loop of the torpedo task
-- has no bound of its own; it gets rounds, and one is enough if it ends at all.
-- The constructor of a decision tree that reads gets the depth of its recursion; the height of the tree
-- is enough, which is at most one more than the depth of the training.
-- The search for a blob gets rounds: more than the image has pixels of the object are enough.
--
-- Simplified: `new` never fails and never returns an address twice, so that the use of a deleted node
-- is a fault and not an accident. One call of recv delivers one byte or none.
--
-- Not modelled: ROS itself, signals, the system calls on terminals, printing, and the toString
-- functions. The rest of the repository (the console, the simulator, and the copies of other projects)
-- is not modelled here.
pub mod Prelude
pub mod Attitude
pub mod Buoys
pub mod Depth
pub mod Dlt
pub mod Flood
pub mod Gate
pub mod Heading
pub mod Image
pub mod Imu
pub mod Motor
pub mod Navigation
pub mod Obstacle
pub mod Sensor
pub mod Torpedo
